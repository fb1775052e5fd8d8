-- ===== src/Retry/Loop.antt =====
-- internal/llm/retry/middleware.go: the handler of the retry middleware. What one round reads from
-- outside (the clock, `rand`, whether the context ends the wait) is an argument of that round.
-- Logging is left out.
use go_judgy.Prelude.{
  ℕ, zero, suc, Bool, true, false, ◌&&◌, Option, none, some, ◌++◌, if◌then◌else◌,
}
use go_judgy.Prelude.Int.{ℤ, pos, pos_part, ltb_ℤ, inc64}
use go_judgy.Prelude.Bytes.{Bytes, bytes}
use go_judgy.Errors.Types.{plain_error, Err, ErrorType, joined, workflow_error}
use go_judgy.Errors.Text.{error_text, show_int}
use go_judgy.Transport.{Request, Response, Context, string_key, has_value, Reply, Handler}
use go_judgy.Floats.{Floats}
use go_judgy.Retry.Config.{RetryConfig}
use go_judgy.Retry.Classify.{should_retry}
use go_judgy.Retry.Backoff.{calculate_backoff, validate_backoff}
use go_judgy.Retry.Stats.{
  RetryStats, RequestBudget, record_backoff_metrics, exceeds_budget, update_budget_from_response,
  new_request_budget,
}

-- `elapsed_before` is `time.Since(startTime)` at the top of the loop, `elapsed_after` the one
-- after the call; `draw` and `draw_again` are `rand.Int64N` for the two waits.
pub record Round : Type 0 where
  pub elapsed_before : ℤ
  pub elapsed_after : ℤ
  pub draw : ℤ → ℤ
  pub draw_again : ℤ → ℤ
  pub cancelled : Option Err

abbrev pub before_retry : Bytes
before_retry = bytes "context cancelled before retry"

abbrev pub during_retry : Bytes
during_retry = bytes "context cancelled during retry"

abbrev pub all_exhausted : Bytes
all_exhausted = bytes "all retries exhausted"

abbrev pub unexpected_exhaustion : Err
unexpected_exhaustion = plain_error (bytes "unexpected retry exhaustion")

-- `fmt.Errorf("%w: %w", ...)` of one of the sentinels and the error of the context.
abbrev pub cancel_error : Bytes → Err → Err
cancel_error message e = joined (message ++ (bytes ": " ++ error_text e)) (plain_error message) e

-- `fmt.Errorf("%w after %d attempts: %w", ...)`.
abbrev pub exhausted_error : ℤ → Err → Err
exhausted_error attempts e =
    joined
      (all_exhausted
        ++ (bytes " after " ++ (show_int attempts ++ (bytes " attempts: " ++ error_text e))))
      (plain_error all_exhausted) e

unfoldable pub budget_error : Err
budget_error = workflow_error record {
  error_type = ErrorType.budget;
  message = bytes "retry budget exceeded";
  code = bytes "RETRY_BUDGET_EXCEEDED";
  retryable = false;
  retry_after = none;
}

-- The variables of the handler, with the world of the handler that it calls.
pub record LoopState (W : Type 0) : Type 0 where
  pub stats : RetryStats
  pub budget : RequestBudget
  pub last_err : Option Err
  pub last_resp : Option Response
  pub world : W

-- How a round ends: with a `return`, with a `break`, or with the next round.
pub data Ended (W : Type 0) : Type 0 where
  returned : RetryStats → W → Reply → Ended W
  broke : LoopState W → Ended W
  again : LoopState W → Ended W

-- The world of the middleware: its counters and the world of the handler below.
abbrev pub RetryWorld : Type 0 → Type 0
RetryWorld W = RetryStats × W

abbrev pub max_attempts_in : Context → ℤ → ℤ
max_attempts_in ctx configured =
    if has_value (string_key (bytes "circuit_breaker_half_open_probe")) ctx
    then pos 1
    else configured

abbrev pub is_zero : ℕ → Bool
is_zero zero = true
is_zero (suc n) = false

abbrev pub count_success : ℕ → RetryStats → RetryStats
count_success zero st = record st { successful_first_attempts = inc64 st.successful_first_attempts }
count_success (suc done) st = record st { successful_retries = inc64 st.successful_retries }

module _ {W : Type 0} where
  -- What a response, if there is one, changes after the call.
  unfoldable pub track_response : Option Response → LoopState W → LoopState W
  track_response none s = s
  track_response (some resp) s =
      if s.budget.enabled
      then (let updated = update_budget_from_response resp (s.budget, s.stats) in
          record s { budget = updated.0; stats = updated.1; last_resp = some resp })
      else record s { last_resp = some resp }

  -- The counters and variables after a call with this response.
  unfoldable pub after_handle : W → Option Response → LoopState W → LoopState W
  after_handle w resp s =
      let st = s.stats in
      track_response resp
        record s { world = w; stats = record st { total_attempts = inc64 st.total_attempts } }

  -- After the loop: the retries are exhausted.
  unfoldable pub finish : ℤ → LoopState W → RetryWorld W × Reply
  finish max_attempts s =
      let st = s.stats in
      elim s.last_err [
        | none ↦ ((st, s.world), (none, some unexpected_exhaustion))
        | some e ↦ (
          (record st { failed_retries = inc64 st.failed_retries }, s.world),
          (s.last_resp, some (exhausted_error max_attempts e)),
        )
      ]

module _ (F : Floats) (cfg : RetryConfig F) (parse_text : Bytes → ℤ) {W : Type 0} where
  abbrev pub wait_or_cancel : Round → LoopState W → Option ℤ → Ended W
  wait_or_cancel env s none = broke s
  wait_or_cancel env s (some wait) = elim env.cancelled [
    | none ↦ again s
    | some e ↦ returned s.stats s.world (none, some (cancel_error during_retry e))
  ]

  -- The part of a round after an error that may be tried again; `done` rounds came before.
  unfoldable pub after_failure : Round → ℕ → Bool → Err → LoopState W → Ended W
  after_failure env done is_last e s =
      let backoff = calculate_backoff F cfg parse_text env.draw done e in
      let failed = record s { last_err = some e } in
      let recorded = record s {
        last_err = some e;
        stats = record_backoff_metrics backoff s.stats;
      } in
      if is_last
      then broke failed
      else wait_or_cancel env recorded
          (validate_backoff F cfg parse_text env.draw_again backoff env.elapsed_after done e)

  -- The part of a round after the call of the handler.
  unfoldable pub after_call : Round → ℕ → Bool → LoopState W → W × Reply → Ended W
  after_call env done is_last s (w, (resp, none)) =
      let tracked = after_handle w resp s in
      returned (count_success done tracked.stats) tracked.world (resp, none)
  after_call env done is_last s (w, (resp, some e)) =
      let tracked = after_handle w resp s in
      if should_retry e
      then after_failure env done is_last e tracked
      else returned tracked.stats tracked.world (tracked.last_resp, some e)

  -- One round of the loop.
  unfoldable pub attempt_once :
      Handler W → Context → Request → Round → ℕ → Bool → LoopState W → Ended W
  attempt_once next ctx req env done is_last s =
      let st = s.stats in
      if ltb_ℤ (pos 0) cfg.max_elapsed_time && ltb_ℤ cfg.max_elapsed_time env.elapsed_before
      then broke s
      else if s.budget.enabled && exceeds_budget s.budget
      then returned record st { budget_exceeded = inc64 st.budget_exceeded } s.world
          (none, some budget_error)
      else after_call env done is_last s (next ctx req s.world)

  -- The loop with `left` rounds to go: attempt `done + 1` up to `done + left`.
  unfoldable pub run_attempts :
      Handler W → Context → Request → (ℕ → Round) → ℤ → ℕ → ℕ → LoopState W → RetryWorld W × Reply
  run_attempts next ctx req env total zero done s = finish total s
  run_attempts next ctx req env total (suc left) done s =
      elim (attempt_once next ctx req (env done) done (is_zero left) s) [
        | returned stats w reply ↦ ((stats, w), reply)
        | broke s' ↦ finish total s'
        | again s' ↦ run_attempts next ctx req env total left (suc done) s'
      ]

  -- The variables when the loop starts.
  unfoldable pub start : RetryWorld W → LoopState W
  start (stats, w) = record {
    stats = stats;
    budget = new_request_budget F cfg;
    last_err = none;
    last_resp = none;
    world = w;
  }

  -- The handler that the middleware makes of `next`; `cancelled` is the error of a context that is
  -- done before the first round.
  unfoldable pub handle :
      Handler W → (ℕ → Round) → Option Err → Context → Request → RetryWorld W → RetryWorld W × Reply
  handle next env cancelled ctx req world =
      let total = max_attempts_in ctx cfg.max_attempts in
      elim cancelled [
        | some e ↦ (world, (none, some (cancel_error before_retry e)))
        | none ↦ run_attempts next ctx req env total (pos_part total) 0 (start world)
      ]
