-- ===== src/Domain/Answer.antt =====
-- internal/domain/answer.go: answers with their embedded structs.
use go_judgy.Prelude.{Bool, false, not, ◌&&◌, ◌||◌, List, [], ◌∷◌}
use go_judgy.Prelude.Int.{ℤ, pos, ◌+ℤ◌, int64}
use go_judgy.Prelude.Bytes.{Bytes, bytes, beq, is_empty_text}
use go_judgy.Domain.Judgement.{ArtifactRef}

-- A value of `Metadata`: a string, or anything else.
pub data MetadataValue : Type 0 where
  text : Bytes → MetadataValue
  opaque : MetadataValue

pub record Answer : Type 0 where
  pub id : Bytes
  pub content_ref : ArtifactRef
  pub provider : Bytes
  pub model : Bytes
  pub generated_at : ℤ
  pub trace_id : Bytes
  pub provider_request_ids : List Bytes
  pub latency_millis : ℤ
  pub prompt_tokens : ℤ
  pub completion_tokens : ℤ
  pub total_tokens : ℤ
  pub calls_used : ℤ
  pub estimated_cost : ℤ
  pub finish_reason : Bytes
  pub truncated : Bool
  pub retry_count : ℤ
  pub error : Bytes
  pub metadata : List (Bytes × MetadataValue)

-- `FinishLength`, `FinishContentFilter`, and `ArtifactAnswer` of artifact.go.
abbrev pub finish_length : Bytes
finish_length = bytes "length"

abbrev finish_content_filter : Bytes
finish_content_filter = bytes "content_filter"

abbrev pub artifact_answer : Bytes
artifact_answer = bytes "answer"

-- `ArtifactRef{}`.
abbrev pub zero_ref : ArtifactRef
zero_ref = record { key = []; size = pos 0; kind = [] }

-- `MakeAnswer`; with an empty identifier, texts and time 0, the zero value.
unfoldable pub make_answer : Bytes → ℤ → ArtifactRef → Bytes → Bytes → Answer
make_answer id generated_at content_ref provider model = record {
  id = id;
  content_ref = content_ref;
  provider = provider;
  model = model;
  generated_at = generated_at;
  trace_id = [];
  provider_request_ids = [];
  latency_millis = pos 0;
  prompt_tokens = pos 0;
  completion_tokens = pos 0;
  total_tokens = pos 0;
  calls_used = pos 0;
  estimated_cost = pos 0;
  finish_reason = [];
  truncated = false;
  retry_count = pos 0;
  error = [];
  metadata = [];
}

-- `Answer{}`.
unfoldable pub zero_answer : Answer
unfolding make_answer
zero_answer = make_answer [] (pos 0) zero_ref [] []

-- `(*Answer).IsValid`.
unfoldable is_valid_answer : Answer → Bool
is_valid_answer a =
    not (is_empty_text a.content_ref.key)
    && (beq a.content_ref.kind artifact_answer && is_empty_text a.error)

unfoldable update_truncated : Answer → Answer
update_truncated a = record a {
  truncated = beq a.finish_reason finish_length || beq a.finish_reason finish_content_filter;
}

-- `GenerateAnswersOutput`.
pub record GenerateAnswersOutput : Type 0 where
  pub answers : List Answer
  pub tokens_used : ℤ
  pub calls_made : ℤ
  pub cost_cents : ℤ
  pub client_idem_key : Bytes
  pub error : Bytes

-- The loop of `CalculateTotalTokens` of an output, and the method.
unfoldable sum_tokens : ℤ → List Answer → ℤ
sum_tokens total [] = total
sum_tokens total (a ∷ answers) = sum_tokens (int64 (total +ℤ a.total_tokens)) answers

unfoldable calculate_total_tokens : GenerateAnswersOutput → GenerateAnswersOutput
unfolding sum_tokens
calculate_total_tokens g = record g { tokens_used = sum_tokens (pos 0) g.answers }
