-- ===== src/Generation/Tests.antt =====
-- internal/generation: each theorem at an input that meets its hypotheses.
use go_judgy.Prelude.{◌≡◌, refl, none, some, inr, [], ◌∷◌, length, get_elem?}
use go_judgy.Prelude.Int.{pos}
use go_judgy.Prelude.Bytes.{Bytes, bytes, insert, lookup}
use go_judgy.Errors.Types.{plain_error}
use go_judgy.Domain.State.{without}
use go_judgy.Domain.Judgement.{ArtifactRef}
use go_judgy.Domain.Answer.{Answer, artifact_answer, zero_answer, make_answer}
use go_judgy.Transport.{op_generation, Request, Response}
use go_judgy.Transport.Conversion.{Stamp, response_to_answer}
use go_judgy.Business.Artifacts.{Storage, artifact_exists}
use go_judgy.Generation.Keys.{answer_artifact_key}
use go_judgy.Generation.Store.{
  memory, missing_content, store_answer_content, store_answer_artifacts, Turn,
}
use go_judgy.Generation.Contents.{Present, store_answer_content-response}
use go_judgy.Generation.Batch.{store_answer_artifacts-readable}
use go_judgy.Generation.Cleanup.{store_answer_artifacts-deletes}

-- No hash.
abbrev plain : Bytes → Bytes
plain t = t

abbrev stamp : Stamp
stamp = record { id = bytes "a1"; now = pos 5; month = bytes "2025/01" }

abbrev question : Request
question = record {
  operation = op_generation;
  provider = bytes "openai";
  model = bytes "gpt-4";
  tenant_id = bytes "t";
  question = bytes "why?";
  max_tokens = pos 10;
  seed = none;
  system_prompt = [];
  timeout = pos 0;
  idempotency_key = [];
  trace_id = [];
  metadata = [];
}

abbrev reply : Response
reply = record {
  content = bytes "because";
  finish_reason = bytes "stop";
  provider_request_ids = [];
  usage = record {
    prompt_tokens = pos 3;
    completion_tokens = pos 1;
    total_tokens = pos 4;
    latency_ms = pos 2;
  };
  estimated_cost_milli_cents = pos 0;
  headers = [];
  raw_body = [];
}

abbrev candidate_key : Bytes
candidate_key = answer_artifact_key plain (bytes "t") (bytes "w") (bytes "k") 0

-- The answer said `because`, and this is not what is stored.
store_answer_content-response_example :
    store_answer_content plain memory
      (response_to_answer stamp reply question)
      (bytes "w")
      (bytes "t")
      (bytes "k")
      0
      []
    ≡ (
      insert candidate_key (missing_content (bytes "a1")) [],
      inr (record {
        key = candidate_key;
        size = pos (length (missing_content (bytes "a1")));
        kind = artifact_answer;
      }),
    )
store_answer_content-response_example =
    store_answer_content-response plain stamp reply question (bytes "w") (bytes "t") (bytes "k") 0
      [] refl

abbrev old_ref : ArtifactRef
old_ref = record { key = bytes "old"; size = pos 3; kind = artifact_answer }

-- An answer whose content is in the store, and the store.
abbrev old_answer : Answer
old_answer = record zero_answer { id = bytes "a0"; content_ref = old_ref }

abbrev old_store : Storage
old_store = (bytes "old", bytes "yes") ∷ []

abbrev ran : Turn
ran = record { index = 0; cancelled = none }

abbrev ended : Turn
ended = record { index = 1; cancelled = some (plain_error (bytes "context canceled")) }

store_answer_artifacts-readable_example :
    (b : Answer) × (get_elem? (old_answer ∷ []) 0 ≡ some b) × Present b.content_ref.key old_store
unfolding make_answer artifact_exists zero_answer store_answer_artifacts without
store_answer_artifacts-readable_example =
    store_answer_artifacts-readable plain (bytes "w") (bytes "t") (bytes "k") (old_answer ∷ [])
      (ran ∷ []) old_store old_store (old_answer ∷ []) 0 old_answer refl refl refl

-- The second goroutine found the context ended, and the content of the first answer goes.
store_answer_artifacts-deletes_example :
    lookup
      (bytes "old")
      (store_answer_artifacts plain memory
        (old_answer ∷ zero_answer ∷ [])
        (bytes "w")
        (bytes "t")
        (bytes "k")
        (ran ∷ ended ∷ [])
        old_store).0
    ≡ none
unfolding store_answer_artifacts make_answer artifact_exists zero_answer
store_answer_artifacts-deletes_example =
    store_answer_artifacts-deletes plain (bytes "w") (bytes "t") (bytes "k")
      (old_answer ∷ zero_answer ∷ []) 0 old_answer refl refl (ran ∷ ended ∷ []) old_store _ _ refl
      refl refl
