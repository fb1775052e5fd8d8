-- ===== src/Scoring/Tests.antt =====
-- internal/scoring: each theorem at an input that meets its hypotheses.
use go_judgy.Prelude.{
  ℕ, suc, true, false, not, ◌≡◌, refl, none, some, inl, inr, List, [], ◌∷◌, length, get_elem?,
  if◌then◌else◌, arith,
}
use go_judgy.Prelude.Int.{pos}
use go_judgy.Prelude.Bytes.{Bytes, bytes, beq}
use go_judgy.Errors.Types.{Err, plain_error}
use go_judgy.Floats.Whole.{whole}
use go_judgy.Domain.Judgement.{JudgeScore, same_truth, has_reason_ref, has_inline}
use go_judgy.Domain.Answer.{Answer, zero_answer}
use go_judgy.Domain.Evaluation.{default_eval_config}
use go_judgy.Transport.Keys.{Json, Codec, Result}
use go_judgy.Transport.Payload.{FullRequest}
use go_judgy.Transport.{Response}
use go_judgy.Transport.Words.{trim_space, trim_left, trim_right, is_space}
use go_judgy.Business.Artifacts.{Storage}
use go_judgy.Client.Validated.{Judging, Stamps}
use go_judgy.Client.Score.{ScoreAnswersInput, ScoreAnswersOutput}
use go_judgy.Generation.Store.{memory}
use go_judgy.Scoring.Policy.{WorkflowContext, apply_blob_if_large_policy}
use go_judgy.Scoring.Rationale.{reasoning_of, apply_blob_if_large_policy-reads}
use go_judgy.Scoring.Batch.{Scorer, ScoringTurn, zero_score, without_totals, process_batch_scoring}
use go_judgy.Scoring.Slots.{process_batch_scoring-cancelled}
use go_judgy.Scoring.Owners.{llm_client, process_batch_scoring-answer_id}
use go_judgy.Scoring.Validator.{
  Decoding, ScoreSchema, validate, validate_schema, Accepted, validate-Accepted,
}
use go_judgy.Scoring.Events.{
  ActivityInfo, ScoringEmitter, get_workflow_context, emit_scoring_events,
}
use go_judgy.Scoring.Silence.{is_uuid_length, emit_scoring_events-silent}

abbrev context : WorkflowContext
context = record {
  workflow_id = bytes "w";
  run_id = bytes "r";
  tenant_id = bytes "t";
  activity_id = bytes "a";
}

-- A threshold of zero: every reasoning goes to the store.
apply_blob_if_large_policy-reads_example :
    let (st', r) =
      apply_blob_if_large_policy whole memory
        (pos 0)
        (zero_score whole)
        (bytes "good")
        context
        0
        [] in
    (s' : JudgeScore whole) × (r ≡ inr s')
    × (reasoning_of whole s' st' ≡ inr (bytes "good"))
    × (same_truth whole (has_reason_ref whole s'.evidence) (has_inline whole s'.evidence) ≡ false)
apply_blob_if_large_policy-reads_example =
    apply_blob_if_large_policy-reads whole (pos 0) (zero_score whole) (bytes "good") context 0 []
      refl

abbrev down : Err
down = plain_error (bytes "down")

-- A client that always fails.
abbrev failing : ScoreAnswersInput whole → Storage → Storage × Result (ScoreAnswersOutput whole)
failing input w = (w, inl down)

abbrev scorer : Scorer whole Storage
scorer = record {
  client = failing;
  store = memory;
  validator = λ t. inr (t, false);
  error_text = λ e. e.message;
  sha1_id = λ t. t;
  blob_threshold = pos 10;
}

abbrev answers : List Answer
answers = record zero_answer { id = bytes "a0" } ∷ record zero_answer { id = bytes "a1" } ∷ []

-- The second goroutine runs first, and the first finds the context ended.
abbrev turns : List (ScoringTurn whole)
turns =
    record { index = 1; cancelled = false; now = pos 1 }
    ∷ record { index = 0; cancelled = true; now = pos 2 }
    ∷ []

process_batch_scoring-cancelled_example :
    let result =
      (process_batch_scoring whole scorer
        (bytes "why?")
        (default_eval_config whole)
        context
        answers
        none
        turns
        []).1 in
    (out : ScoreAnswersOutput whole) × (result ≡ inr out)
    × (get_elem? out.scores 0 ≡ some (zero_score whole))
process_batch_scoring-cancelled_example =
    process_batch_scoring-cancelled whole scorer (bytes "why?") (default_eval_config whole) context
      answers turns [] 0 (omega arith) refl

abbrev codec : Codec whole
codec = record {
  marshal_payload = λ p. inr p.model;
  unmarshal = λ t. inr (Json.primitive t);
  marshal = λ j. inr [];
  sha256_hex = λ t. t;
}

abbrev judging : Judging whole
judging = record {
  decode = λ t. inl down;
  check_struct = λ s. none;
  check_ref = λ r. none;
  validate_and_repair = λ t enable. inl down;
}

-- A chain whose provider is down.
abbrev next : FullRequest whole → Storage → Storage × Result Response
next req w = (w, inl down)

abbrev stamps : Storage → ℕ → Stamps
stamps w i = record {
  first = record { id = bytes "s"; now = pos 1; month = [] };
  again = record { id = bytes "s2"; now = pos 1; month = [] };
  trace_id = [];
}

process_batch_scoring-answer_id_example :
    let served = record scorer { client = llm_client whole judging codec next stamps } in
    let result =
      (process_batch_scoring whole served
        (bytes "why?")
        (default_eval_config whole)
        context
        answers
        none
        turns
        []).1 in
    (out : ScoreAnswersOutput whole) × (s : JudgeScore whole) × (result ≡ inr out)
    × (get_elem? out.scores 1 ≡ some s)
    × (s.answer_id ≡ bytes "a1")
process_batch_scoring-answer_id_example =
    process_batch_scoring-answer_id whole judging codec next stamps scorer (bytes "why?")
      (default_eval_config whole) context answers turns [] 1
      (record zero_answer { id = bytes "a1" }) refl refl

abbrev schema : ScoreSchema whole
schema = record { score = 1; reasoning = bytes "it is well argued"; confidence = none }

abbrev decoding : Decoding whole
decoding = record {
  decode = λ t. inr schema;
  quote_keys = λ t. t;
  schema_error = λ e. down;
  application_error = λ e. down;
}

validate-Accepted_example :
    Accepted whole decoding (bytes "{}") × (false ≡ not (beq (bytes "{}") (bytes "{}")))
unfolding validate validate_schema trim_space trim_left trim_right is_space
validate-Accepted_example = validate-Accepted whole decoding (bytes "{}") (bytes "{}") false refl

-- A parser that looks at the length only.
abbrev parse : Bytes → Result Bytes
parse t = if is_uuid_length (length t) then inr t else inl down

-- A sink that counts events.
abbrev emitter : ScoringEmitter whole ℕ
emitter = record {
  sink = some (λ e n. (suc n, none));
  packing = record {
    check_payload = λ p. none;
    check_envelope = λ e. none;
    marshal = λ p. inr [];
    sha256_hex = λ t. t;
  };
  parse_uuid = parse;
  visit = λ l. l;
  now = λ i. pos 1;
  cancels = λ i. false;
}

abbrev info : ActivityInfo
info = record { workflow_id = bytes "w"; run_id = bytes "r"; activity_id = bytes "a" }

emit_scoring_events-silent_example :
    emit_scoring_events whole emitter
      (get_workflow_context info)
      (without_totals whole (zero_score whole ∷ []))
      0
    ≡ 0
emit_scoring_events-silent_example =
    emit_scoring_events-silent whole emitter info (without_totals whole (zero_score whole ∷ [])) 0
      (λ text h. (down, rw h refl))
