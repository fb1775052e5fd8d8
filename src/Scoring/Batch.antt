-- ===== src/Scoring/Batch.antt =====
-- internal/scoring/activities.go: the scoring of answers. The client is a parameter, as are the texts of
-- Temporal's errors and the identifiers made by SHA-1. The goroutines of a batch run in an order that
-- is an argument, each with whether the context had ended by then.
use go_judgy.Prelude.{
  ℕ, zero, suc, Bool, true, false, Option, none, some, ◌⊎◌, inl, inr, List, [], ◌∷◌, ◌++◌, length,
  get_elem?, if◌then◌else◌, ◌==◌,
}
use go_judgy.Prelude.Int.{ℤ, pos, ◌+ℤ◌, int64}
use go_judgy.Prelude.Bytes.{Bytes, bytes, is_empty_text}
use go_judgy.Errors.Types.{Err, plain_error}
use go_judgy.Errors.Text.{show_int}
use go_judgy.Errors.Classify.{classify_llm_error}
use go_judgy.Floats.{Floats}
use go_judgy.Domain.Judgement.{JudgeScore, validate_blob_threshold}
use go_judgy.Domain.Answer.{Answer, zero_ref}
use go_judgy.Domain.Evaluation.{EvalConfig}
use go_judgy.Transport.Keys.{Result}
use go_judgy.Client.Validated.{ScoreValidator}
use go_judgy.Client.Score.{ScoreAnswersInput, ScoreAnswersOutput}
use go_judgy.Generation.Store.{ArtifactStore}
use go_judgy.Scoring.Policy.{WorkflowContext, apply_blob_if_large_policy}

-- An application error of Temporal: whether the activity is tried again, its type, its message, and
-- its cause, which may be nil.
pub record ActivityError : Type 0 where
  pub is_retryable : Bool
  pub tag : Bytes
  pub message : Bytes
  pub cause : Option Err

abbrev pub retryable : Bytes → Option Err → Bytes → ActivityError
retryable tag cause message = record {
  is_retryable = true;
  tag = tag;
  message = message;
  cause = cause;
}

abbrev pub non_retryable : Bytes → Option Err → Bytes → ActivityError
non_retryable tag cause message = record {
  is_retryable = false;
  tag = tag;
  message = message;
  cause = cause;
}

abbrev unknown_provider : Bytes
unknown_provider = bytes "unknown"

-- What becomes of an error of the client.
abbrev pub client_error : Bytes → Bytes → Err → ActivityError
client_error tag message e =
    let wf = classify_llm_error e in
    if wf.retryable then retryable tag (some e) wf.message else non_retryable tag (some e) message

module _ (F : Floats) where
  open F use {zero_float}

  -- `domain.Score{}` with these fields.
  abbrev blank_score : Bytes → Bytes → Bytes → ℤ → Bytes → JudgeScore F
  blank_score id answer_id provider now error = record {
    id = id;
    answer_id = answer_id;
    value = zero_float;
    confidence = zero_float;
    evidence = record {
      reason_ref = zero_ref;
      inline_reasoning = [];
      dimensions = [];
      rubric_version = [];
    };
    provenance = record {
      judge_id = provider;
      provider = provider;
      model = provider;
      provider_request_ids = [];
      scored_at = now;
    };
    usage = record {
      latency_ms = pos 0;
      tokens_used = pos 0;
      calls_used = pos 0;
      cost_cents = pos 0;
    };
    valid = false;
    error = error;
  }

  abbrev pub zero_score : JudgeScore F
  zero_score = blank_score [] [] [] (pos 0) []

  -- `(*Score).IsValid`.
  abbrev is_valid_score : JudgeScore F → Bool
  is_valid_score s = elim s.valid [ true ↦ is_empty_text s.error | false ↦ false ]

  -- `countValidScores`.
  unfoldable count_valid_scores : List (JudgeScore F) → ℕ
  count_valid_scores [] = 0
  count_valid_scores (s ∷ scores) =
      if is_valid_score s then suc (count_valid_scores scores) else count_valid_scores scores

  -- A result of a batch by its index; a slot that no goroutine filled is the zero value.
  unfoldable pub score_at : ℕ → List (ℕ × JudgeScore F) → JudgeScore F
  score_at index [] = zero_score
  score_at index ((i, s) ∷ done) = if i == index then s else score_at index done

  unfoldable pub scores_from : ℕ → ℕ → List (ℕ × JudgeScore F) → List (JudgeScore F)
  unfolding score_at
  scores_from zero index done = []
  scores_from (suc n) index done = score_at index done ∷ scores_from n (suc index) done

  -- The totals of the batch: tokens, calls and cost of the valid scores.
  unfoldable pub add_score : JudgeScore F → ScoreAnswersOutput F → ScoreAnswersOutput F
  add_score s out =
      if is_valid_score s
      then record out {
        tokens_used = int64 (out.tokens_used +ℤ s.usage.tokens_used);
        calls_made = int64 (out.calls_made +ℤ s.usage.calls_used);
        cost_cents = int64 (out.cost_cents +ℤ s.usage.cost_cents);
      }
      else out

  unfoldable pub add_totals : List (JudgeScore F) → ScoreAnswersOutput F → ScoreAnswersOutput F
  unfolding add_score
  add_totals [] out = out
  add_totals (s ∷ scores) out = add_totals scores (add_score s out)

  abbrev pub without_totals : List (JudgeScore F) → ScoreAnswersOutput F
  without_totals scores = record {
    scores = scores;
    tokens_used = pos 0;
    calls_made = pos 0;
    cost_cents = pos 0;
    error = [];
  }

  -- What the activity uses: the client, the store, the validator that it makes, the text of an
  -- application error, and `uuid.NewSHA1` of a name.
  pub record Scorer (W : Type 0) : Type 0 where
    pub client : ScoreAnswersInput F → W → W × Result (ScoreAnswersOutput F)
    pub store : ArtifactStore W
    pub validator : ScoreValidator
    pub error_text : ActivityError → Bytes
    pub sha1_id : Bytes → Bytes
    pub blob_threshold : ℤ

  -- The threshold of `NewActivities`.
  unfoldable new_activities : {W : Type 0} → Scorer W → Scorer W
  unfolding validate_blob_threshold
  new_activities a = record a { blob_threshold = (validate_blob_threshold a.blob_threshold).0 }

  -- A goroutine of the batch: its index, whether the context has ended, and the time.
  pub record ScoringTurn : Type 0 where
    pub index : ℕ
    pub cancelled : Bool
    pub now : ℤ

  module _ {W : Type 0} (a : Scorer W) (question : Bytes) (config : EvalConfig F)
      (wf : WorkflowContext) where
    abbrev pub scoring_input : Answer → ScoreAnswersInput F
    scoring_input answer = record {
      question = question;
      answers = answer ∷ [];
      config = config;
      validator = some a.validator;
      repair_policy = some (record { max_attempts = pos 1; allow_transport_repairs = true });
    }

    -- The score of the client with the identifiers that it lacks.
    abbrev pub identified : Answer → ℕ → JudgeScore F → JudgeScore F
    identified answer index s = record s {
      id =
          if is_empty_text s.id
          then bytes "score-" ++ (wf.workflow_id ++ (bytes "-" ++ show_int (pos index)))
          else s.id;
      answer_id = if is_empty_text s.answer_id then answer.id else s.answer_id;
    }

    abbrev pub after_policy : W × Result (JudgeScore F) → W × (ActivityError ⊎ JudgeScore F)
    after_policy (w, inl e) =
        (w, inl (non_retryable (bytes "scoreAnswer") (some e) (bytes "failed to store rationale")))
    after_policy (w, inr s) = (w, inr s)

    abbrev pub of_scores : Answer → ℕ → W → List (JudgeScore F) → W × (ActivityError ⊎ JudgeScore F)
    of_scores answer index w [] = (
      w,
      inl (
          non_retryable (bytes "scoreAnswer") (some (plain_error (bytes "no scores returned")))
            (bytes "empty response")),
    )
    of_scores answer index w (first ∷ _) =
        let s = identified answer index first in
        if is_empty_text s.evidence.inline_reasoning
        then (w, inr s)
        else after_policy (
            apply_blob_if_large_policy F a.store a.blob_threshold s s.evidence.inline_reasoning wf
              index w)

    abbrev pub of_client :
        Answer → ℕ → W × Result (ScoreAnswersOutput F) → W × (ActivityError ⊎ JudgeScore F)
    of_client answer index (w, inl e) =
        (w, inl (client_error (bytes "scoreAnswer") (bytes "LLM scoring failed") e))
    of_client answer index (w, inr out) = of_scores answer index w out.scores

    unfoldable pub score_answer : Answer → ℕ → W → W × (ActivityError ⊎ JudgeScore F)
    unfolding apply_blob_if_large_policy classify_llm_error
    score_answer answer index w = of_client answer index (a.client (scoring_input answer) w)

    -- The score that a goroutine writes.
    abbrev pub written : Answer → ScoringTurn → ActivityError ⊎ JudgeScore F → JudgeScore F
    written answer t (inr s) = s
    written answer t (inl e) =
        blank_score
          (a.sha1_id (bytes "score-" ++ (wf.workflow_id ++ (bytes "-" ++ show_int (pos t.index)))))
          answer.id unknown_provider t.now (a.error_text e)

    module _ (answers : List Answer) where
      abbrev pub turn_one :
          ScoringTurn → Option Answer → List (ℕ × JudgeScore F) → W → W × List (ℕ × JudgeScore F)
      turn_one t none done w = (w, done)
      turn_one t (some answer) done w =
          if t.cancelled
          then (w, done)
          else (let (w', result) = score_answer answer t.index w in
              (w', (t.index, written answer t result) ∷ done))

      unfoldable pub run_turns :
          List ScoringTurn → List (ℕ × JudgeScore F) → W → W × List (ℕ × JudgeScore F)
      unfolding score_answer
      run_turns [] done w = (w, done)
      run_turns (t ∷ turns) done w =
          let (w', done') = turn_one t (get_elem? answers t.index) done w in
          run_turns turns done' w'

    -- `processBatchScoring`. With the error of a context that ended before the last goroutine was
    -- launched, it returns at once.
    unfoldable pub process_batch_scoring :
        List Answer → Option Err → List ScoringTurn → W → W × (ActivityError ⊎ ScoreAnswersOutput F)
    unfolding run_turns scores_from add_totals
    process_batch_scoring answers (some e) turns w =
        (w, inl (retryable (bytes "ScoreAnswers") (some e) (bytes "context cancelled")))
    process_batch_scoring answers none turns w =
        let (w', done) = run_turns answers turns [] w in
        let scores = scores_from (length answers) 0 done in
        (w', inr (add_totals scores (without_totals scores)))
