-- ===== src/Scoring/Events.antt =====
-- internal/scoring/events.go and activities.go, pkg/activity/base.go: the scoring activity with the
-- events that it emits. Parsing a UUID, the sink, and the packing of events are parameters; so is the
-- order in which a map is visited.
use go_judgy.Prelude.{
  ℕ, suc, Bool, Option, none, some, ◌⊎◌, inl, inr, List, [], ◌∷◌, ◌++◌, length, if◌then◌else◌,
}
use go_judgy.Prelude.Int.{ℤ, pos}
use go_judgy.Prelude.Bytes.{Bytes, bytes, beq, is_empty_text}
use go_judgy.Errors.Types.{Err}
use go_judgy.Errors.Text.{show_int}
use go_judgy.Floats.{Floats}
use go_judgy.Domain.Judgement.{JudgeScore, is_zero_ref}
use go_judgy.Transport.Keys.{Result}
use go_judgy.Client.Score.{ScoreAnswersInput, ScoreAnswersOutput}
use go_judgy.Events.Envelope.{
  EventEnvelope, EventType, Origin, Packing, new_answer_scored_event, new_scoring_usage_event,
}
use go_judgy.Events.Emit.{Envelope, EventSink, emit_event_safe}
use go_judgy.Generation.Activity.{add_member}
use go_judgy.Scoring.Policy.{WorkflowContext}
use go_judgy.Scoring.Batch.{
  ActivityError, non_retryable, Scorer, ScoringTurn, process_batch_scoring,
}

-- What Temporal tells an activity.
pub record ActivityInfo : Type 0 where
  pub workflow_id : Bytes
  pub run_id : Bytes
  pub activity_id : Bytes

-- `GetWorkflowContext` within an activity: the tenant is a fixed text.
unfoldable pub get_workflow_context : ActivityInfo → WorkflowContext
get_workflow_context info = record {
  workflow_id = info.workflow_id;
  run_id = info.run_id;
  tenant_id = bytes "default";
  activity_id = info.activity_id;
}

abbrev type_text : EventType → Bytes
type_text EventType.candidate_produced = bytes "CandidateProduced"
type_text EventType.answer_scored = bytes "AnswerScored"
type_text EventType.llm_usage = bytes "LLMUsage"
type_text EventType.verdict_reached = bytes "VerdictReached"

-- `convertDomainEventToEnvelope`.
unfoldable pub convert_domain_event : EventEnvelope → Envelope
convert_domain_event e = record {
  id = e.idempotency_key;
  type = type_text e.event_type;
  source = e.producer;
  version = show_int (pos e.version) ++ bytes ".0.0";
  timestamp = e.occurred_at;
  idempotency_key = e.idempotency_key;
  tenant_id = e.tenant_id;
  workflow_id = e.workflow_id;
  run_id = e.run_id;
  payload = e.payload;
}

module _ (F : Floats) where
  abbrev unknown : Bytes
  unknown = bytes "unknown"

  abbrev known : Bytes → Bytes
  known t = if beq t unknown then [] else t

  unfoldable judge_models : List Bytes → List (JudgeScore F) → List Bytes
  unfolding add_member
  judge_models set [] = set
  judge_models set (s ∷ scores) = judge_models (add_member (known s.provenance.model) set) scores

  unfoldable extract_provider : List (JudgeScore F) → Bytes
  extract_provider [] = []
  extract_provider (s ∷ scores) =
      if is_empty_text (known s.provenance.provider)
      then extract_provider scores
      else s.provenance.provider

  abbrev add_all : List Bytes → List Bytes → List Bytes
  add_all [] set = set
  add_all (t ∷ ts) set = add_all ts (add_member t set)

  unfoldable request_ids_from : List Bytes → List (JudgeScore F) → List Bytes
  unfolding add_member
  request_ids_from set [] = set
  request_ids_from set (s ∷ scores) =
      request_ids_from (add_all s.provenance.provider_request_ids set) scores

  unfoldable artifact_refs_from : List Bytes → List (JudgeScore F) → List Bytes
  unfolding add_member is_zero_ref
  artifact_refs_from set [] = set
  artifact_refs_from set (s ∷ scores) =
      artifact_refs_from
        (if is_zero_ref s.evidence.reason_ref
          then set
          else add_member s.evidence.reason_ref.key set)
        scores

  -- What the emitter uses; `cancels` says whether the context ends in the wait of an emission.
  pub record ScoringEmitter (W : Type 0) : Type 0 where
    pub sink : Option (EventSink W)
    pub packing : Packing F
    pub parse_uuid : Bytes → Result Bytes
    pub visit : List Bytes → List Bytes
    pub now : ℕ → ℤ
    pub cancels : ℕ → Bool

  module _ {W : Type 0} (E : ScoringEmitter W) (wf : WorkflowContext) where
    abbrev pub send : ℕ → Result EventEnvelope → W → W
    send i (inl e) w = w
    send i (inr e) w = (emit_event_safe E.sink (E.cancels i) (convert_domain_event e) w).0

    abbrev origin_of : Bytes → Origin
    origin_of tenant = record {
      tenant_id = tenant;
      workflow_id = wf.workflow_id;
      run_id = wf.run_id;
    }

    abbrev scored_with : JudgeScore F → Bytes → ℕ → Result Bytes → W → W
    scored_with s client_key i (inl e) w = w
    scored_with s client_key i (inr tenant) w =
        send i (new_answer_scored_event F E.packing (origin_of tenant) s client_key i (E.now i)) w

    unfoldable pub emit_answer_scored : JudgeScore F → Bytes → ℕ → W → W
    unfolding convert_domain_event
    emit_answer_scored s client_key i w = scored_with s client_key i (E.parse_uuid wf.tenant_id) w

    abbrev or_unknown : Bytes → Bytes
    or_unknown [] = unknown
    or_unknown (c ∷ cs) = c ∷ cs

    abbrev or_unknown_models : List Bytes → List Bytes
    or_unknown_models [] = unknown ∷ []
    or_unknown_models (m ∷ ms) = m ∷ ms

    abbrev usage_with : ScoreAnswersOutput F → Bytes → Result Bytes → W → W
    usage_with out client_key (inl e) w = w
    usage_with out client_key (inr tenant) w =
        let i = length out.scores in
        send i
          (new_scoring_usage_event F E.packing (origin_of tenant) out
            (or_unknown (extract_provider out.scores))
            (or_unknown_models (E.visit (judge_models [] out.scores)))
            (E.visit (request_ids_from [] out.scores)) client_key
            (E.visit (artifact_refs_from [] out.scores)) (E.now i))
          w

    unfoldable pub emit_scoring_usage : ScoreAnswersOutput F → Bytes → W → W
    unfolding convert_domain_event judge_models extract_provider request_ids_from artifact_refs_from
    emit_scoring_usage out client_key w = usage_with out client_key (E.parse_uuid wf.tenant_id) w

    unfoldable pub emit_scores : List (JudgeScore F) → ℕ → Bytes → W → W
    unfolding emit_answer_scored
    emit_scores [] i client_key w = w
    emit_scores (s ∷ scores) i client_key w =
        emit_scores scores (suc i) client_key (emit_answer_scored s client_key i w)

    -- `emitScoringEvents`.
    unfoldable pub emit_scoring_events : ScoreAnswersOutput F → W → W
    unfolding emit_scores emit_scoring_usage
    emit_scoring_events out w =
        let client_key =
          bytes "scoring-"
          ++ (wf.workflow_id ++ (bytes "-" ++ show_int (pos (length out.scores)))) in
        emit_scoring_usage out client_key (emit_scores out.scores 0 client_key w)

  -- The checks of the input and of the output.
  pub record Checks : Type 0 where
    pub check_input : ScoreAnswersInput F → Option Err
    pub check_output : ScoreAnswersOutput F → Option Err

  module _ {W : Type 0} (a : Scorer F W) (E : ScoringEmitter W) (checks : Checks) where
    abbrev pub finish :
        WorkflowContext
        → W × (ActivityError ⊎ ScoreAnswersOutput F)
        → W × (ActivityError ⊎ ScoreAnswersOutput F)
    finish wf (w, inl e) = (w, inl e)
    finish wf (w, inr out) = elim (checks.check_output out) [
      | some e ↦ (w, inl (non_retryable (bytes "ScoreAnswers") (some e) (bytes "invalid output")))
      | none ↦ (emit_scoring_events E wf out w, inr out)
    ]

    -- `ScoreAnswers`.
    unfoldable pub score_answers :
        ActivityInfo
        → ScoreAnswersInput F
        → Option Err
        → List (ScoringTurn F)
        → W
        → W × (ActivityError ⊎ ScoreAnswersOutput F)
    unfolding process_batch_scoring emit_scoring_events get_workflow_context
    score_answers info input cancelled turns w = elim (checks.check_input input) [
      | some e ↦ (w, inl (non_retryable (bytes "ScoreAnswers") (some e) (bytes "invalid input")))
      | none ↦
          let wf = get_workflow_context info in
          finish wf (
            process_batch_scoring F a input.question input.config wf input.answers cancelled turns
              w)
    ]
