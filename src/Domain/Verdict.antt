-- ===== src/Domain/Verdict.antt =====
-- internal/domain/verdict.go: the status of an evaluation and whether a person must review it. Times
-- are nanoseconds; the checks of the struct tags are a parameter.
use go_judgy.Prelude.{
  ◌≡◌, Bool, true, false, not, ◌||◌, Option, none, some, List, [], ◌∷◌, if◌then◌else◌, arith,
}
use go_judgy.Prelude.Int.{ℤ, ◌-ℤ◌, ltb_ℤ, saturate64, div_trunc}
use go_judgy.Prelude.Bytes.{Bytes, bytes, beq, is_empty_text}
use go_judgy.Errors.Types.{Err}
use go_judgy.Floats.{Floats}
use go_judgy.Domain.Score.{Answer, Score}

pub data VerdictStatus : Type 0 where
  success partial failed timed_out : VerdictStatus

pub data ReviewReasonCode : Type 0 where
  no_reason low_aggregate unsuccessful : ReviewReasonCode

pub record UsageTotals : Type 0 where
  pub tokens : ℤ
  pub calls : ℤ
  pub cost : ℤ

pub data VerdictError : Type 0 where
  empty_scores invalid_verdict : VerdictError
  struct_error : Err → VerdictError

unfoldable pub is_success : VerdictStatus → Bool
is_success success = true
is_success _ = false

-- `ErrCodeTimeout`; no code is the empty text.
abbrev pub timeout_code : Bytes
timeout_code = bytes "timeout"

module _ (F : Floats) where
  open F use {Float, lt_float}

  pub record Verdict : Type 0 where
    pub status : VerdictStatus
    pub aggregate_score : Float
    pub winner_answer_id : Bytes
    pub error_code : Bytes
    pub error : Bytes
    pub started_at : ℤ
    pub completed_at : ℤ
    pub duration_millis : ℤ
    pub total_tokens : ℤ
    pub total_calls : ℤ
    pub total_cost_cents : ℤ
    pub requires_human_review : Bool
    pub review_reason_code : ReviewReasonCode
    pub review_reason : Bytes
    pub winner_answer : Option Answer
    pub all_scores : List (Score F)

  unfoldable pub validate_verdict : (Verdict → Option Err) → Verdict → Option VerdictError
  validate_verdict check_struct v = elim (check_struct v) [
    | some e ↦ some (struct_error e)
    | none ↦ elim v.all_scores [
      | [] ↦ some empty_scores
      | s ∷ scores ↦ if ltb_ℤ v.completed_at v.started_at then some invalid_verdict else none
    ]
  ]

  unfoldable pub calculate_duration : Verdict → Verdict
  calculate_duration v = record v {
    duration_millis = div_trunc (saturate64 (v.completed_at -ℤ v.started_at)) 1000000;
  }

  unfoldable pub apply_totals : UsageTotals → Verdict → Verdict
  apply_totals totals v = record v {
    total_tokens = totals.tokens;
    total_calls = totals.calls;
    total_cost_cents = totals.cost;
  }

  abbrev pub has_winner : Verdict → Bool
  has_winner v = elim v.winner_answer [
    | some a ↦ true
    | none ↦ not (is_empty_text v.winner_answer_id)
  ]

  abbrev has_scores : List (Score F) → Bool
  has_scores [] = false
  has_scores (s ∷ scores) = true

  abbrev status_of : Verdict → VerdictStatus
  status_of v =
      if beq v.error_code timeout_code
      then timed_out
      else if not (is_empty_text v.error_code) || not (is_empty_text v.error)
      then failed
      else if not (has_scores v.all_scores)
      then failed
      else if has_winner v
      then success
      else partial

  unfoldable pub determine_status : Verdict → Verdict
  determine_status v = record v { status = status_of v }

  abbrev ask_review : ReviewReasonCode → Bytes → Verdict → Verdict
  ask_review code reason v = record v {
    requires_human_review = true;
    review_reason_code = code;
    review_reason = reason;
  }

  unfoldable pub needs_review : Float → Verdict → Verdict × Bool
  unfolding is_success
  needs_review threshold v =
      if lt_float v.aggregate_score threshold
      then (ask_review low_aggregate (bytes "Score below threshold") v, true)
      else if is_success v.status
      then (
        record v {
          requires_human_review = false;
          review_reason_code = no_reason;
          review_reason = [];
        },
        false,
      )
      else (ask_review unsuccessful (bytes "Evaluation did not complete successfully") v, true)

  -- After the status is determined, a verdict that needs no review has a winner.
  reviewed-winner :
      (threshold : Float) (v : Verdict)
      → (needs_review threshold (determine_status v)).1 ≡ false
      → has_winner v ≡ true
  unfolding needs_review determine_status is_success
  reviewed-winner threshold v h = ground (arith, h)
