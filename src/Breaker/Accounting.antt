-- ===== src/Breaker/Accounting.antt =====
-- internal/llm/circuitbreaker/circuit_breaker.go and metrics.go: the request counters agree with
-- the calls, and the time counters with the clock.
use go_judgy.Prelude.{
  ℕ, suc, ◌+◌, ◌≤◌, ◌<◌, ◌≡◌, refl, ap, ◌∙◌, Bool, true, false, not, List, [], ◌∷◌, arith,
}
use native.Mathlib.Nat.{add-zero, zero-add, add_assoc}
use go_judgy.Prelude.Int.{ℤ, pos, inc64-pos, max_int64}
use go_judgy.Breaker.State.{
  CircuitState, state_closed, state_open, state_half_open, Metrics, CircuitBreaker, Config,
  update_state_time,
}
use go_judgy.Breaker.Machine.{
  Readings, Cleanup, new_circuit_breaker, allow, allow_in, handle_half_open_probe, run_cleanup,
  transition_to, record_success, success_in, record_failure, failure_in,
}
use go_judgy.Breaker.Invariant.{Call, ask, succeed, fail, cleanup, reset, step, run}

-- How many calls ask for admission, and how many of them are let through and turned away.
abbrev pub asks : List Call → ℕ
asks [] = 0
asks (ask env ∷ cs) = suc (asks cs)
asks (_ ∷ cs) = asks cs

abbrev pub count_if : Bool → ℕ
count_if true = 1
count_if false = 0

unfoldable pub let_through : CircuitBreaker → Call → ℕ
let_through cb (ask env) = count_if (allow env cb).1.allowed
let_through cb _ = 0

unfoldable pub turned_away : CircuitBreaker → Call → ℕ
turned_away cb (ask env) = count_if (not (allow env cb).1.allowed)
turned_away cb _ = 0

unfoldable pub admitted : CircuitBreaker → List Call → ℕ
admitted cb [] = 0
admitted cb (c ∷ cs) = let_through cb c + admitted (step cb c) cs

unfoldable pub refused : CircuitBreaker → List Call → ℕ
refused cb [] = 0
refused cb (c ∷ cs) = turned_away cb c + refused (step cb c) cs

-- The counters stand at a admissions and r rejections.
pub record IsCounted (a r : ℕ) (cb : CircuitBreaker) : Type 0 where
  pub allowed : cb.metrics.requests_allowed ≡ pos a
  pub rejected : cb.metrics.requests_rejected ≡ pos r

-- `updateStateTime` leaves the request counters alone.
time-counters :
    (s : CircuitState) (now : ℤ) (m : Metrics)
    → ((update_state_time s now m).requests_allowed ≡ m.requests_allowed)
      × ((update_state_time s now m).requests_rejected ≡ m.requests_rejected)
unfolding update_state_time
time-counters state_closed now m = ground arith
time-counters state_open now m = ground arith
time-counters state_half_open now m = ground arith

abbrev SameCounters : CircuitBreaker → CircuitBreaker → Type 0
SameCounters before after =
    (after.metrics.requests_allowed ≡ before.metrics.requests_allowed)
    × (after.metrics.requests_rejected ≡ before.metrics.requests_rejected)

transition-counters :
    (s : CircuitState) (now : ℤ) (cb : CircuitBreaker) → SameCounters cb (transition_to s now cb)
unfolding transition_to
transition-counters s now cb = grind (arith, time-counters)

success-counters : (env : Readings) (cb : CircuitBreaker) → SameCounters cb (record_success env cb)
unfolding record_success success_in
success-counters env cb = grind (arith, time-counters)

failure-counters : (env : Readings) (cb : CircuitBreaker) → SameCounters cb (record_failure env cb)
unfolding record_failure failure_in
failure-counters env cb = grind (arith, time-counters)

cleanup-counters : (c : Cleanup) (cb : CircuitBreaker) → SameCounters cb (run_cleanup c cb)
unfolding run_cleanup
cleanup-counters c cb = ground arith

SameCounters-IsCounted :
    (a r : ℕ) (before after : CircuitBreaker)
    → SameCounters before after
    → IsCounted a r before
    → IsCounted a r after
SameCounters-IsCounted a r before after same h = record {
  allowed = same.0 ∙ h.allowed;
  rejected = same.1 ∙ h.rejected;
}

probe-IsCounted :
    (a r : ℕ) (cb : CircuitBreaker)
    → IsCounted a r cb
    → a < max_int64
    → r < max_int64
    → let (after, result, _) = handle_half_open_probe cb in
      IsCounted (a + count_if result.allowed) (r + count_if (not result.allowed)) after
unfolding handle_half_open_probe
probe-IsCounted a r cb h la lr = ground (arith, inc64-pos a la, inc64-pos r lr)

allow-IsCounted :
    (a r : ℕ) (env : Readings) (cb : CircuitBreaker)
    → IsCounted a r cb
    → a < max_int64
    → r < max_int64
    → let (after, result, _) = allow env cb in
      IsCounted (a + count_if result.allowed) (r + count_if (not result.allowed)) after
unfolding allow allow_in
allow-IsCounted a r env cb h la lr =
    let half = transition_to state_half_open env.change_now cb in
    let kept = transition-counters state_half_open env.change_now cb in
    ground (
      arith,
      inc64-pos a la,
      inc64-pos r lr,
      probe-IsCounted a r cb h la lr,
      probe-IsCounted a r half (SameCounters-IsCounted a r cb half kept h) la lr,
    )

-- The counters that the calls leave alone, with the sums that count them.
same-IsCounted :
    (a r : ℕ) (before after : CircuitBreaker)
    → SameCounters before after
    → IsCounted a r before
    → IsCounted (a + 0) (r + 0) after
same-IsCounted a r before after same h =
    rw (add-zero, add-zero) (SameCounters-IsCounted a r before after same h)

step-IsCounted :
    (a r : ℕ) (cb : CircuitBreaker) (c : Call)
    → IsCounted a r cb
    → a + r + asks (c ∷ []) ≤ max_int64
    → IsCounted (a + let_through cb c) (r + turned_away cb c) (step cb c)
unfolding step let_through turned_away
step-IsCounted a r cb (ask env) h l = allow-IsCounted a r env cb h (omega arith) (omega arith)
step-IsCounted a r cb (succeed env) h l = same-IsCounted a r cb _ (success-counters env cb) h
step-IsCounted a r cb (fail env) h l = same-IsCounted a r cb _ (failure-counters env cb) h
step-IsCounted a r cb (cleanup c) h l = same-IsCounted a r cb _ (cleanup-counters c cb) h
step-IsCounted a r cb (reset now) h l =
    same-IsCounted a r cb _ (transition-counters state_closed now cb) h

-- One call gives one verdict if it asks, and none if it does not.
verdicts : (cb : CircuitBreaker) (c : Call) → let_through cb c + turned_away cb c ≡ asks (c ∷ [])
unfolding let_through turned_away
verdicts cb (ask env) = ground arith
verdicts cb (succeed env) = refl
verdicts cb (fail env) = refl
verdicts cb (cleanup c) = refl
verdicts cb (reset now) = refl

asks-cons : (c : Call) (cs : List Call) → asks (c ∷ cs) ≡ asks (c ∷ []) + asks cs
asks-cons (ask env) cs = omega arith
asks-cons (succeed env) cs = omega arith
asks-cons (fail env) cs = omega arith
asks-cons (cleanup c) cs = omega arith
asks-cons (reset now) cs = omega arith

run-IsCounted :
    (a r : ℕ) (cb : CircuitBreaker) (cs : List Call)
    → IsCounted a r cb
    → a + r + asks cs ≤ max_int64
    → IsCounted (a + admitted cb cs) (r + refused cb cs) (run cb cs)
unfolding run admitted refused
run-IsCounted a r cb [] h l = rw (add-zero, add-zero) h
run-IsCounted a r cb (c ∷ cs) h l =
    let a' = a + let_through cb c in
    let r' = r + turned_away cb c in
    let stepped = step-IsCounted a r cb c h (omega (arith, asks-cons c cs)) in
    rw (← add_assoc, ← add_assoc)
      (run-IsCounted a' r' (step cb c) cs stepped (omega (arith, verdicts cb c, asks-cons c cs)))

new-IsCounted : (cfg : Config) (w now : ℤ) → IsCounted 0 0 (new_circuit_breaker cfg w now)
unfolding new_circuit_breaker
new-IsCounted cfg w now = record { allowed = refl; rejected = refl }

-- From a new breaker, after any calls of which at most 2 ^ 63 - 1 ask for admission, the metric
-- `requestsAllowed` is the number of requests that `allow` let through, `requestsRejected` the
-- number that it turned away.
pub run-new-counts :
    (cfg : Config) (w now : ℤ) (cs : List Call)
    → asks cs ≤ max_int64
    → let cb = new_circuit_breaker cfg w now in
      ((run cb cs).metrics.requests_allowed ≡ pos (admitted cb cs))
      × ((run cb cs).metrics.requests_rejected ≡ pos (refused cb cs))
run-new-counts cfg w now cs l =
    let start = new_circuit_breaker cfg w now in
    let done = run-IsCounted 0 0 start cs (new-IsCounted cfg w now) (omega arith) in
    (done.allowed ∙ ap pos (zero-add _), done.rejected ∙ ap pos (zero-add _))
