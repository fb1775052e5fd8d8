-- ===== src/Events/Envelope.antt =====
-- internal/domain/events.go: payloads and envelopes. JSON and the checks of struct tags are parameters,
-- as is the clock; a UUID is its text.
use go_judgy.Prelude.{
  ℕ, Bool, false, not, Option, none, some, inl, inr, List, [], ◌∷◌, if◌then◌else◌,
}
use go_judgy.Prelude.Int.{ℤ}
use go_judgy.Prelude.Bytes.{Bytes, bytes, is_empty_text}
use go_judgy.Errors.Types.{Err}
use go_judgy.Floats.{Floats}
use go_judgy.Domain.Judgement.{JudgeScore, is_zero_ref}
use go_judgy.Domain.Answer.{Answer, GenerateAnswersOutput}
use go_judgy.Transport.Keys.{Result, then_try, wrap_error}
use go_judgy.Client.Score.{ScoreAnswersOutput}
use go_judgy.Events.Keys.{
  candidate_produced_key, llm_usage_key, answer_scored_key, scoring_usage_key,
}

pub data EventType : Type 0 where
  candidate_produced answer_scored llm_usage verdict_reached : EventType

pub record EventEnvelope : Type 0 where
  pub idempotency_key : Bytes
  pub event_type : EventType
  pub version : ℕ
  pub occurred_at : ℤ
  pub tenant_id : Bytes
  pub workflow_id : Bytes
  pub run_id : Bytes
  pub sequence : ℕ
  pub artifact_refs : List Bytes
  pub payload : Bytes
  pub producer : Bytes

pub record CandidateProducedPayload : Type 0 where
  pub answer_id : Bytes
  pub provider : Bytes
  pub model : Bytes
  pub latency_ms : ℤ
  pub prompt_tokens : ℤ
  pub completion_tokens : ℤ
  pub total_tokens : ℤ
  pub finish_reason : Bytes

pub record LlmUsagePayload : Type 0 where
  pub total_tokens : ℤ
  pub total_calls : ℤ
  pub cost_cents : ℤ
  pub provider : Bytes
  pub models : List Bytes
  pub provider_request_ids : List Bytes
  pub cache_hit : Bool

-- The workflow of an event: its tenant and its identifiers.
pub record Origin : Type 0 where
  pub tenant_id : Bytes
  pub workflow_id : Bytes
  pub run_id : Bytes

-- `NewEventEnvelope`; the key is set by the caller.
unfoldable new_event_envelope : EventType → Origin → Bytes → Bytes → List Bytes → ℤ → EventEnvelope
new_event_envelope t o payload producer refs now = record {
  idempotency_key = [];
  event_type = t;
  version = 1;
  occurred_at = now;
  tenant_id = o.tenant_id;
  workflow_id = o.workflow_id;
  run_id = o.run_id;
  sequence = 0;
  artifact_refs = refs;
  payload = payload;
  producer = producer;
}

abbrev generate_producer : Bytes
generate_producer = bytes "activity.generate_answers"

abbrev score_producer : Bytes
score_producer = bytes "activity.score_answers"

module _ (F : Floats) where
  pub record AnswerScoredPayload : Type 0 where
    pub answer_id : Bytes
    pub score_id : Bytes
    pub score : F.Float
    pub confidence : F.Float
    pub judge_id : Bytes
    pub provider : Bytes
    pub model : Bytes
    pub latency_ms : ℤ
    pub tokens_used : ℤ
    pub calls_used : ℤ
    pub cost_cents : ℤ
    pub has_inline_reasoning : Bool
    pub rationale_artifact_ref : Bytes
    pub provider_request_ids : List Bytes

  pub data Payload : Type 0 where
    candidate : CandidateProducedPayload → Payload
    usage : LlmUsagePayload → Payload
    scored : AnswerScoredPayload → Payload

  -- The validator of struct tags on payloads and envelopes, JSON, and SHA-256.
  pub record Packing : Type 0 where
    pub check_payload : Payload → Option Err
    pub check_envelope : EventEnvelope → Option Err
    pub marshal : Payload → Result Bytes
    pub sha256_hex : Bytes → Bytes

  module _ (P : Packing) where
    open P use {check_payload, check_envelope, marshal, sha256_hex}

    abbrev passed : {A : Type 0} → Option Err → A → Result A
    passed none a = inr a
    passed (some e) a = inl e

    -- The steps that every event takes: its payload is checked and encoded, its key set, and its
    -- envelope checked.
    unfoldable pack :
        Bytes → EventType → Origin → Payload → Bytes → List Bytes → Bytes → ℤ → Result EventEnvelope
    unfolding new_event_envelope
    pack invalid t o payload producer refs key now =
        then_try (wrap_error invalid (passed (check_payload payload) payload)) (λ fine.
          then_try (wrap_error (bytes "failed to marshal payload: ") (marshal fine)) (λ text.
            let e = record (new_event_envelope t o text producer refs now) {
              idempotency_key = key;
            } in
            wrap_error (bytes "invalid event envelope: ") (passed (check_envelope e) e)))

    unfoldable new_candidate_produced_event : Origin → Answer → Bytes → ℕ → ℤ → Result EventEnvelope
    unfolding pack candidate_produced_key
    new_candidate_produced_event o a client_key index now =
        pack (bytes "invalid candidate produced payload: ") EventType.candidate_produced o
          (candidate (record {
            answer_id = a.id;
            provider = a.provider;
            model = a.model;
            latency_ms = a.latency_millis;
            prompt_tokens = a.prompt_tokens;
            completion_tokens = a.completion_tokens;
            total_tokens = a.total_tokens;
            finish_reason = a.finish_reason;
          }))
          generate_producer (a.content_ref.key ∷ [])
          (candidate_produced_key sha256_hex client_key index) now

    unfoldable new_llm_usage_event :
        Origin
        → GenerateAnswersOutput
        → Bytes
        → List Bytes
        → List Bytes
        → Bool
        → Bytes
        → List Bytes
        → ℤ
        → Result EventEnvelope
    unfolding pack llm_usage_key
    new_llm_usage_event o out provider models request_ids cache_hit client_key refs now =
        pack (bytes "invalid LLM usage payload: ") EventType.llm_usage o
          (usage (record {
            total_tokens = out.tokens_used;
            total_calls = out.calls_made;
            cost_cents = out.cost_cents;
            provider = provider;
            models = models;
            provider_request_ids = request_ids;
            cache_hit = cache_hit;
          }))
          generate_producer refs (llm_usage_key sha256_hex client_key) now

    abbrev rationale_of : JudgeScore F → Bytes
    rationale_of s = if is_zero_ref s.evidence.reason_ref then [] else s.evidence.reason_ref.key

    unfoldable pub new_answer_scored_event :
        Origin → JudgeScore F → Bytes → ℕ → ℤ → Result EventEnvelope
    unfolding pack answer_scored_key is_zero_ref
    new_answer_scored_event o s client_key index now =
        let rationale = rationale_of s in
        pack (bytes "invalid answer scored payload: ") EventType.answer_scored o
          (scored (record {
            answer_id = s.answer_id;
            score_id = s.id;
            score = s.value;
            confidence = s.confidence;
            judge_id = s.provenance.judge_id;
            provider = s.provenance.provider;
            model = s.provenance.model;
            latency_ms = s.usage.latency_ms;
            tokens_used = s.usage.tokens_used;
            calls_used = s.usage.calls_used;
            cost_cents = s.usage.cost_cents;
            has_inline_reasoning = not (is_empty_text s.evidence.inline_reasoning);
            rationale_artifact_ref = rationale;
            provider_request_ids = s.provenance.provider_request_ids;
          }))
          score_producer (if is_empty_text rationale then [] else rationale ∷ [])
          (answer_scored_key sha256_hex client_key index) now

    unfoldable pub new_scoring_usage_event :
        Origin
        → ScoreAnswersOutput F
        → Bytes
        → List Bytes
        → List Bytes
        → Bytes
        → List Bytes
        → ℤ
        → Result EventEnvelope
    unfolding pack scoring_usage_key
    new_scoring_usage_event o out provider models request_ids client_key refs now =
        pack (bytes "invalid scoring usage payload: ") EventType.llm_usage o
          (usage (record {
            total_tokens = out.tokens_used;
            total_calls = out.calls_made;
            cost_cents = out.cost_cents;
            provider = provider;
            models = models;
            provider_request_ids = request_ids;
            cache_hit = false;
          }))
          score_producer refs (scoring_usage_key sha256_hex client_key) now
