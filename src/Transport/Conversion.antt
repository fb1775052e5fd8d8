-- ===== src/Transport/Conversion.antt =====
-- internal/llm/transport/conversion.go: what responses become for the domain. The fresh UUID, the
-- clock and the text of the current month are arguments.
use go_judgy.Prelude.{
  Bool, true, false, not, Option, none, some, inl, inr, List, [], ◌∷◌, ◌++◌, length, if◌then◌else◌,
}
use go_judgy.Prelude.Int.{ℤ, pos, div_trunc}
use go_judgy.Prelude.Bytes.{Bytes, bytes, beq, is_empty_text}
use go_judgy.Errors.Types.{Err}
use go_judgy.Errors.Text.{error_text}
use go_judgy.Floats.{Floats}
use go_judgy.Domain.Score.{DimensionScore}
use go_judgy.Domain.Judgement.{ArtifactRef, JudgeScore, ScoreUsage, ScoreEvidence}
use go_judgy.Domain.Answer.{Answer, finish_length, artifact_answer, zero_ref}
use go_judgy.Transport.{Request, Response}
use go_judgy.Transport.Keys.{Result, wrap_error, then_try}

abbrev fetched : Bytes → Result Bytes → Bytes
fetched id (inr content) = content
fetched id (inl e) =
    bytes "[Answer ID: "
    ++ (id ++ (bytes " - Failed to fetch content: " ++ (error_text e ++ bytes "]")))

-- `ExtractAnswerContent`; the store's `Get`, if there is a store.
unfoldable extract_answer_content : List Answer → Option (ArtifactRef → Result Bytes) → Bytes
extract_answer_content [] store = []
extract_answer_content (a ∷ _) store =
    if is_empty_text a.content_ref.key
    then bytes "[Answer ID: " ++ (a.id ++ bytes " - No content reference]")
    else elim store [
      | none ↦ bytes "[Answer ID: " ++ (a.id ++ bytes " - No artifact store configured]")
      | some get ↦ fetched a.id (get a.content_ref)
    ]

-- The identifier, the clock and the month at the making of an answer or a score.
pub record Stamp : Type 0 where
  pub id : Bytes
  pub now : ℤ
  pub month : Bytes

-- `domain.Cents(milliCents / 1000)`.
abbrev to_cents : ℤ → ℤ
to_cents milli_cents = div_trunc milli_cents 1000

unfoldable pub response_to_answer : Stamp → Response → Request → Answer
response_to_answer t resp req = record {
  id = t.id;
  content_ref = record {
    key = bytes "answers/" ++ (t.month ++ (bytes "/" ++ (t.id ++ bytes ".txt")));
    size = pos (length resp.content);
    kind = artifact_answer;
  };
  provider = req.provider;
  model = req.model;
  generated_at = t.now;
  trace_id = req.trace_id;
  provider_request_ids = resp.provider_request_ids;
  latency_millis = resp.usage.latency_ms;
  prompt_tokens = resp.usage.prompt_tokens;
  completion_tokens = resp.usage.completion_tokens;
  total_tokens = resp.usage.total_tokens;
  calls_used = pos 1;
  estimated_cost = to_cents resp.estimated_cost_milli_cents;
  finish_reason = resp.finish_reason;
  truncated = beq resp.finish_reason finish_length;
  retry_count = pos 0;
  error = [];
  metadata = [];
}

module _ (F : Floats) where
  open F use {Float, zero_float}

  pub record ScoreData : Type 0 where
    pub value : Float
    pub confidence : Float
    pub reasoning : Bytes
    pub dimensions : List (DimensionScore F)

  -- `fmt.Sprintf("%s-%s", req.Provider, req.Model)`.
  abbrev pub judge_id_of : Request → Bytes
  judge_id_of req = req.provider ++ (bytes "-" ++ req.model)

  abbrev pub usage_of : Response → ScoreUsage F
  usage_of resp = record {
    latency_ms = resp.usage.latency_ms;
    tokens_used = resp.usage.total_tokens;
    calls_used = pos 1;
    cost_cents = to_cents resp.estimated_cost_milli_cents;
  }

  abbrev pub inline_evidence : ScoreData → ScoreEvidence F
  inline_evidence d = record {
    reason_ref = zero_ref;
    inline_reasoning = d.reasoning;
    dimensions = d.dimensions;
    rubric_version = [];
  }

  -- `ResponseToScore`; `validate` is the ScoreValidator.
  unfoldable response_to_score :
      (Bytes → Bool → Result ScoreData)
      → Stamp
      → Response
      → Bytes
      → Request
      → Bool
      → Result (JudgeScore F)
  response_to_score validate t resp answer_id req disable_json_repair =
      then_try
        (wrap_error (bytes "invalid score response: ")
          (validate resp.content (not disable_json_repair)))
        (λ d. inr record {
          id = t.id;
          answer_id = answer_id;
          value = d.value;
          confidence = d.confidence;
          evidence = inline_evidence d;
          provenance = record {
            judge_id = judge_id_of req;
            provider = req.provider;
            model = req.model;
            provider_request_ids = [];
            scored_at = t.now;
          };
          usage = usage_of resp;
          valid = true;
          error = [];
        })

  unfoldable pub create_invalid_score : Stamp → Bytes → Err → JudgeScore F
  create_invalid_score t answer_id err = record {
    id = t.id;
    answer_id = answer_id;
    value = zero_float;
    confidence = zero_float;
    evidence = record {
      reason_ref = zero_ref;
      inline_reasoning = bytes "Error during scoring: " ++ error_text err;
      dimensions = [];
      rubric_version = [];
    };
    provenance = record {
      judge_id = bytes "error";
      provider = bytes "error";
      model = bytes "error";
      provider_request_ids = [];
      scored_at = t.now;
    };
    usage = record {
      latency_ms = pos 0;
      tokens_used = pos 0;
      calls_used = pos 0;
      cost_cents = pos 0;
    };
    valid = false;
    error = error_text err;
  }
