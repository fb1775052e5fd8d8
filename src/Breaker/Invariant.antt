-- ===== src/Breaker/Invariant.antt =====
-- internal/llm/circuitbreaker/circuit_breaker.go: what holds of a breaker between two calls, in
-- whatever order and number the calls of its methods come.
use go_judgy.Prelude.{
  ◌≡◌, ◌≢◌, inl, inr, Bool, true, false, Option, none, some, Option-cases, List, [], ◌∷◌, arith,
}
use go_judgy.Prelude.Int.{ℤ, pos, ◌≤ℤ◌, ◌<ℤ◌, inc32, dec32, max_int32}
use go_judgy.Breaker.State.{
  state_closed, state_open, state_half_open, AdaptiveThresholds, CircuitBreaker, Config,
}
use go_judgy.Breaker.Adaptive.{get_threshold}
use go_judgy.Breaker.Machine.{
  Readings, Cleanup, new_circuit_breaker, handle_half_open_probe, run_cleanup, transition_to, allow,
  record_success, record_failure, observe, record_adaptive, success_in, failure_in,
}
use go_judgy.Breaker.Threshold.{
  InRange, IsTuned, record_request-IsTuned, new_adaptive_thresholds-IsTuned,
}

-- A call on one breaker. `cleanup` is the call of a `Cleanup` function, `reset` that of `Reset`.
pub data Call : Type 0 where
  ask succeed fail : Readings → Call
  cleanup : Cleanup → Call
  reset : ℤ → Call

unfoldable pub step : CircuitBreaker → Call → CircuitBreaker
step cb (ask env) = (allow env cb).0
step cb (succeed env) = record_success env cb
step cb (fail env) = record_failure env cb
step cb (cleanup c) = run_cleanup c cb
step cb (reset now) = transition_to state_closed now cb

unfoldable pub run : CircuitBreaker → List Call → CircuitBreaker
run cb [] = cb
run cb (c ∷ cs) = run (step cb c) cs

-- Thresholds and the number of probes are positive int32 values.
pub record IsSound (cfg : Config) : Type 0 where
  pub failure : InRange cfg.failure_threshold
  pub success : InRange cfg.success_threshold
  pub probes : InRange cfg.half_open_probes

abbrev pub AdaptiveOk : Option AdaptiveThresholds → ℤ → ℤ → Type 0
AdaptiveOk none failures threshold = failures <ℤ threshold
AdaptiveOk (some at) failures threshold = IsTuned at

pub record IsValid (cb : CircuitBreaker) : Type 0 where
  pub failure_range : InRange cb.failure_threshold
  pub success_range : InRange cb.success_threshold
  pub probe_range : InRange cb.max_half_open_probes
  pub failures_nonneg : pos 0 ≤ℤ cb.failures
  pub failures_small : cb.failures <ℤ pos max_int32
  pub failures_closed : cb.state ≢ state_closed → cb.failures ≡ pos 0
  pub successes_nonneg : pos 0 ≤ℤ cb.successes
  pub successes_below : cb.successes <ℤ cb.success_threshold
  pub successes_half_open : cb.state ≢ state_half_open → cb.successes ≡ pos 0
  pub probes_nonneg : pos 0 ≤ℤ cb.half_open_probes
  pub probes_capped : cb.half_open_probes ≤ℤ cb.max_half_open_probes
  pub probes_half_open : cb.state ≢ state_half_open → cb.half_open_probes ≡ pos 0
  pub adaptive_ok : AdaptiveOk cb.adaptive cb.failures cb.failure_threshold

pub new-IsValid : (cfg : Config) (w now : ℤ) → IsSound cfg → IsValid (new_circuit_breaker cfg w now)
unfolding new_circuit_breaker
new-IsValid cfg w now h =
    ground (arith, new_adaptive_thresholds-IsTuned cfg.failure_threshold w h.failure)

close-IsValid :
    (now : ℤ) (cb : CircuitBreaker) → IsValid cb → IsValid (transition_to state_closed now cb)
unfolding transition_to
close-IsValid now cb h = ground arith

half_open-IsValid :
    (now : ℤ) (cb : CircuitBreaker)
    → cb.state ≡ state_open
    → IsValid cb
    → IsValid (transition_to state_half_open now cb)
unfolding transition_to
half_open-IsValid now cb e h = ground arith

half_open-state :
    (now : ℤ) (cb : CircuitBreaker) → (transition_to state_half_open now cb).state ≡ state_half_open
unfolding transition_to
half_open-state now cb = ground arith

probe-IsValid :
    (cb : CircuitBreaker)
    → cb.state ≡ state_half_open
    → IsValid cb
    → IsValid (handle_half_open_probe cb).0
unfolding handle_half_open_probe inc32
probe-IsValid cb e h = ground arith

run_cleanup-IsValid : (c : Cleanup) (cb : CircuitBreaker) → IsValid cb → IsValid (run_cleanup c cb)
unfolding run_cleanup dec32
run_cleanup-IsValid c cb h = ground arith

allow-IsValid : (env : Readings) (cb : CircuitBreaker) → IsValid cb → IsValid (allow env cb).0
unfolding allow
allow-IsValid env cb h =
    let half = transition_to state_half_open env.change_now cb in
    ground (
      arith,
      probe-IsValid cb,
      probe-IsValid half (half_open-state env.change_now cb),
      half_open-IsValid env.change_now cb,
    )

observe-IsValid :
    (success : Bool) (now : ℤ) (cb : CircuitBreaker)
    → IsValid cb
    → IsValid (record_adaptive success now cb)
unfolding observe
observe-IsValid success now cb h = elim (Option-cases cb.adaptive) [
  | inl e ↦ ground arith
  | inr (at, e) ↦ ground (arith, record_request-IsTuned success now at)
]

success_in-IsValid :
    (env : Readings) (cb : CircuitBreaker) → IsValid cb → IsValid (success_in cb.state env cb)
unfolding success_in inc32
success_in-IsValid env cb h = ground arith

failure_in-IsValid :
    (env : Readings) (cb : CircuitBreaker) → IsValid cb → IsValid (failure_in cb.state env cb)
unfolding failure_in inc32 get_threshold
failure_in-IsValid env cb h = elim (Option-cases cb.adaptive) [
  | inl e ↦ ground arith
  | inr (at, e) ↦ ground arith
]

record_success-IsValid :
    (env : Readings) (cb : CircuitBreaker) → IsValid cb → IsValid (record_success env cb)
unfolding record_success
record_success-IsValid env cb h =
    success_in-IsValid env _ (observe-IsValid true env.window_now cb h)

record_failure-IsValid :
    (env : Readings) (cb : CircuitBreaker) → IsValid cb → IsValid (record_failure env cb)
unfolding record_failure
record_failure-IsValid env cb h =
    let touched : CircuitBreaker = record cb { last_failure_time = env.failure_now } in
    failure_in-IsValid env _ (observe-IsValid false env.window_now touched (ground arith))

-- Every call keeps the invariant.
pub step-IsValid : (cb : CircuitBreaker) (c : Call) → IsValid cb → IsValid (step cb c)
unfolding step
step-IsValid cb (ask env) h = allow-IsValid env cb h
step-IsValid cb (succeed env) h = record_success-IsValid env cb h
step-IsValid cb (fail env) h = record_failure-IsValid env cb h
step-IsValid cb (cleanup c) h = run_cleanup-IsValid c cb h
step-IsValid cb (reset now) h = close-IsValid now cb h

run-IsValid : (cb : CircuitBreaker) (cs : List Call) → IsValid cb → IsValid (run cb cs)
unfolding run
run-IsValid cb [] h = h
run-IsValid cb (c ∷ cs) h = run-IsValid (step cb c) cs (step-IsValid cb c h)

-- From a new breaker whose thresholds and number of probes are positive int32 values, every
-- sequence of calls of its methods leads to a state that satisfies `IsValid`: probe slots in use
-- lie between 0 and the maximum and are 0 unless the circuit is half-open, likewise the success
-- count below its threshold; failures are 0 unless it is closed, and stay below the failure
-- threshold, or the adaptive threshold stays a positive int32.
pub run-new-IsValid :
    (cfg : Config) (w now : ℤ) (cs : List Call)
    → IsSound cfg
    → IsValid (run (new_circuit_breaker cfg w now) cs)
run-new-IsValid cfg w now cs h = run-IsValid _ cs (new-IsValid cfg w now h)
