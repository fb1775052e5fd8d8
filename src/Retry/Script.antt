-- ===== src/Retry/Script.antt =====
-- internal/llm/retry/middleware.go: one round of the retry middleware above a handler that answers from
-- a script, when neither the clock, nor the budget, nor the context cuts it short.
use go_judgy.Prelude.{
  ℕ, zero, suc, ◌+◌, ◌≡◌, refl, ◌∙◌, sym, ap, Bool, true, false, Option, none, some, arith,
}
use go_judgy.Prelude.Int.{ℤ, pos}
use go_judgy.Prelude.Bytes.{Bytes}
use go_judgy.Errors.Types.{Err, or_else}
use go_judgy.Transport.{Request, Response, Context, Reply, Handler}
use go_judgy.Floats.{Floats}
use go_judgy.Retry.Config.{RetryConfig}
use go_judgy.Retry.Classify.{should_retry}
use go_judgy.Retry.Backoff.{calculate_backoff, validate_backoff}
use go_judgy.Retry.Stats.{RetryStats, record_backoff_metrics}
use go_judgy.Retry.Loop.{
  Round, LoopState, returned, broke, again, track_response, after_handle, count_success,
  after_failure, after_call, attempt_once,
}
use go_judgy.Retry.Attempts.{world-after_handle}

-- A handler that gives its k-th call, from 0, the k-th reply.
unfoldable pub scripted : (ℕ → Reply) → Handler ℕ
scripted script ctx req k = (k + 1, script k)

-- A reply that is tried again.
unfoldable pub is_transient : Reply → Bool
is_transient (resp, none) = false
is_transient (resp, some e) = should_retry e

-- The last response among the first k replies, and the error of the last of them.
unfoldable pub response_seen : (ℕ → Reply) → ℕ → Option Response
response_seen script zero = none
response_seen script (suc k) = or_else (script k).0 (response_seen script k)

unfoldable pub error_seen : (ℕ → Reply) → ℕ → Option Err
error_seen script zero = none
error_seen script (suc k) = (script k).1

abbrev pub answer_of : Option Response → Reply → Reply
answer_of seen (resp, none) = (resp, none)
answer_of seen (resp, some e) = (seen, some e)

-- What the caller gets for reply k when it is not tried again: a success as it is, an error with
-- the last response.
unfoldable pub answer_at : (ℕ → Reply) → ℕ → Reply
answer_at script k = answer_of (response_seen script (suc k)) (script k)

-- The variables after `done` replies that were tried again.
pub record IsAfter (script : ℕ → Reply) (done : ℕ) (s : LoopState ℕ) : Type 0 where
  pub calls : s.world ≡ done
  pub unlimited : s.budget.enabled ≡ false
  pub response : s.last_resp ≡ response_seen script done
  pub error : s.last_err ≡ error_seen script done

response-after_handle :
    {W : Type 0} (w : W) (resp : Option Response) (s : LoopState W)
    → (after_handle w resp s).last_resp ≡ or_else resp s.last_resp
unfolding after_handle track_response
response-after_handle w none s = refl
response-after_handle w (some r) s = ground arith

budget-after_handle :
    {W : Type 0} (w : W) (resp : Option Response) (s : LoopState W)
    → s.budget.enabled ≡ false
    → (after_handle w resp s).budget.enabled ≡ false
unfolding after_handle track_response
budget-after_handle w none s off = off
budget-after_handle w (some r) s off = rw off refl

module _ (F : Floats) (cfg : RetryConfig F) (parse_text : Bytes → ℤ) (script : ℕ → Reply)
    (untimed : cfg.max_elapsed_time ≡ pos 0) where
  -- The variables after a round that waits and goes on.
  abbrev waited : Round → ℕ → Err → LoopState ℕ → LoopState ℕ
  waited env done e s =
      let backoff = calculate_backoff F cfg parse_text env.draw done e in
      record s { last_err = some e; stats = record_backoff_metrics backoff s.stats }

  after_failure-again :
      (env : Round) (done : ℕ) (e : Err) (s : LoopState ℕ)
      → env.cancelled ≡ none
      → after_failure F cfg parse_text env done false e s ≡ again (waited env done e s)
  unfolding after_failure validate_backoff
  after_failure-again env done e s going = rw (untimed, going) refl

  -- A round reaches the handler.
  attempt_once-call :
      (ctx : Context) (req : Request) (env : Round) (done : ℕ) (is_last : Bool) (s : LoopState ℕ)
      → s.budget.enabled ≡ false
      → attempt_once F cfg parse_text (scripted script) ctx req env done is_last s
        ≡ after_call F cfg parse_text env done is_last s (s.world + 1, script s.world)
  unfolding attempt_once scripted
  attempt_once-call ctx req env done is_last s off = rw (untimed, off) refl

  IsAfter-tracked :
      (done : ℕ) (resp : Option Response) (s : LoopState ℕ)
      → IsAfter script done s
      → (script done).0 ≡ resp
      → ((after_handle (s.world + 1) resp s).world ≡ suc done)
        × ((after_handle (s.world + 1) resp s).budget.enabled ≡ false)
        × ((after_handle (s.world + 1) resp s).last_resp ≡ response_seen script (suc done))
  unfolding response_seen
  IsAfter-tracked done resp s at e = (
    world-after_handle (s.world + 1) resp s ∙ ground (arith, at.calls),
    budget-after_handle (s.world + 1) resp s at.unlimited,
    response-after_handle (s.world + 1) resp s ∙ rw (e, at.response) refl,
  )

  pub round-again :
      (env : Round) (done : ℕ) (s : LoopState ℕ) (r : Reply)
      → IsAfter script done s
      → script done ≡ r
      → is_transient r ≡ true
      → env.cancelled ≡ none
      → (s' : LoopState ℕ) × (after_call F cfg parse_text env done false s (s.world + 1, r)
          ≡ again s')
        × IsAfter script (suc done) s'
  unfolding after_call is_transient error_seen
  round-again env done s (resp, none) at e transient going = ground (arith, transient)
  round-again env done s (resp, some err) at e transient going =
      let tracked = after_handle (s.world + 1) resp s in
      let seen = IsAfter-tracked done resp s at (ap (λ r. r.0) e) in
      (
        waited env done err tracked,
        rw transient (after_failure-again env done err tracked going),
        record {
          calls = seen.0;
          unlimited = seen.1;
          response = seen.2;
          error = sym (ap (λ r. r.1) e);
        },
      )

  pub round-last :
      (env : Round) (done : ℕ) (s : LoopState ℕ) (r : Reply)
      → IsAfter script done s
      → script done ≡ r
      → is_transient r ≡ true
      → (s' : LoopState ℕ) × (after_call F cfg parse_text env done true s (s.world + 1, r)
          ≡ broke s')
        × IsAfter script (suc done) s'
  unfolding after_call after_failure is_transient error_seen
  round-last env done s (resp, none) at e transient = ground (arith, transient)
  round-last env done s (resp, some err) at e transient =
      let tracked = after_handle (s.world + 1) resp s in
      let seen = IsAfter-tracked done resp s at (ap (λ r. r.0) e) in
      (
        record tracked { last_err = some err },
        rw transient refl,
        record {
          calls = seen.0;
          unlimited = seen.1;
          response = seen.2;
          error = sym (ap (λ r. r.1) e);
        },
      )

  pub round-answer :
      (env : Round) (done : ℕ) (is_last : Bool) (s : LoopState ℕ) (r : Reply)
      → IsAfter script done s
      → script done ≡ r
      → is_transient r ≡ false
      → (st : RetryStats) × (after_call F cfg parse_text env done is_last s (s.world + 1, r)
          ≡ returned st (suc done) (answer_at script done))
  unfolding after_call is_transient answer_at
  round-answer env done is_last s (resp, none) at e final =
      let seen = IsAfter-tracked done resp s at (ap (λ r. r.0) e) in
      let tracked = after_handle (s.world + 1) resp s in
      (count_success done tracked.stats, rw (seen.0, e) refl)
  round-answer env done is_last s (resp, some err) at e final =
      let seen = IsAfter-tracked done resp s at (ap (λ r. r.0) e) in
      ((after_handle (s.world + 1) resp s).stats, rw (final, seen.0, seen.2, e) refl)

  pub attempt_once-reply :
      (ctx : Context) (req : Request) (env : Round) (done : ℕ) (is_last : Bool) (s : LoopState ℕ)
      → IsAfter script done s
      → attempt_once F cfg parse_text (scripted script) ctx req env done is_last s
        ≡ after_call F cfg parse_text env done is_last s (s.world + 1, script done)
  attempt_once-reply ctx req env done is_last s at =
      attempt_once-call ctx req env done is_last s at.unlimited
      ∙ ap (λ k. after_call F cfg parse_text env done is_last s (s.world + 1, script k)) at.calls
