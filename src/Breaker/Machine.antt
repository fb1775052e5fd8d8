-- ===== src/Breaker/Machine.antt =====
-- internal/llm/circuitbreaker/circuit_breaker.go: the methods of one breaker, each run with no
-- other goroutine between its atomic operations, so a compare-and-swap succeeds at once.
-- What the clock and the random source give one call is a `Readings`.
use Prim.Native.String.{String}
use go_judgy.Prelude.{Bool, true, false, Option, none, some, [], if◌then◌else◌}
use go_judgy.Prelude.Int.{
  ℤ, pos, ◌+ℤ◌, ◌-ℤ◌, leb_ℤ, int64, inc32, inc64, dec32, div_trunc, saturate64,
}
use go_judgy.Prelude.Bytes.{bytes}
use go_judgy.Errors.Types.{ErrorType, ProviderError}
use go_judgy.Breaker.State.{
  CircuitState, state_closed, state_open, state_half_open, Metrics, AdaptiveThresholds,
  CircuitBreaker, Config, is_zero, update_state_time,
}
use go_judgy.Breaker.Adaptive.{new_adaptive_thresholds, record_request, get_threshold}

-- The readings of `time.Now()` by the place that takes them, and `rand.Int63n`.
pub record Readings : Type 0 where
  pub since_now : ℤ
  pub failure_now : ℤ
  pub window_now : ℤ
  pub change_now : ℤ
  pub int63n : ℤ → ℤ

-- The two kinds of `Cleanup` function that a result carries.
pub data Cleanup : Type 0 where
  nothing release_slot : Cleanup

pub record CircuitResult : Type 0 where
  pub allowed : Bool
  pub cleanup : Cleanup
  pub is_half_open_probe : Bool

abbrev pub breaker_error : String → String → ProviderError
breaker_error code message = record {
  provider = [];
  status_code = pos 0;
  message = bytes message;
  code = bytes code;
  error_type = ErrorType.circuit_breaker;
  retry_after = pos 0;
}

abbrev pub err_circuit_open : ProviderError
err_circuit_open = breaker_error "CIRCUIT_OPEN" "circuit breaker is open"

abbrev pub err_half_open_limit : ProviderError
err_half_open_limit = breaker_error "CIRCUIT_HALF_OPEN_LIMIT" "half-open probe limit reached"

unfoldable pub get_jitter : (ℤ → ℤ) → CircuitBreaker → ℤ
unfolding div_trunc
get_jitter int63n cb =
    if is_zero cb.open_timeout
    then pos 0
    else let jit = div_trunc cb.open_timeout 10 in if leb_ℤ jit (pos 0) then pos 0 else int63n jit

unfoldable pub new_circuit_breaker : Config → ℤ → ℤ → CircuitBreaker
unfolding new_adaptive_thresholds
new_circuit_breaker cfg window_now now = record {
  state = state_closed;
  failures = pos 0;
  successes = pos 0;
  last_failure_time = pos 0;
  half_open_probes = pos 0;
  failure_threshold = cfg.failure_threshold;
  success_threshold = cfg.success_threshold;
  open_timeout = cfg.open_timeout;
  max_half_open_probes = cfg.half_open_probes;
  adaptive =
      if cfg.adaptive_thresholds
      then some (new_adaptive_thresholds cfg.failure_threshold window_now)
      else none;
  metrics = record {
    state_transitions = pos 0;
    requests_allowed = pos 0;
    requests_rejected = pos 0;
    probe_attempts = pos 0;
    probe_successes = pos 0;
    probe_guard_conflicts = pos 0;
    time_in_closed = pos 0;
    time_in_open = pos 0;
    time_in_half_open = pos 0;
    last_state_change = now;
  };
}

abbrev pub Allow : Type 0
Allow = CircuitBreaker × CircuitResult × Option ProviderError

abbrev pub count_rejected : CircuitBreaker → CircuitBreaker
count_rejected cb =
    let m = cb.metrics in
    record cb { metrics = record m { requests_rejected = inc64 m.requests_rejected } }

abbrev pub count_allowed : CircuitBreaker → CircuitBreaker
count_allowed cb =
    let m = cb.metrics in
    record cb { metrics = record m { requests_allowed = inc64 m.requests_allowed } }

abbrev pub reject : CircuitBreaker → ProviderError → Allow
reject cb e = (
  count_rejected cb,
  record { allowed = false; cleanup = nothing; is_half_open_probe = false },
  some e,
)

unfoldable pub handle_half_open_probe : CircuitBreaker → Allow
handle_half_open_probe cb =
    if leb_ℤ cb.max_half_open_probes cb.half_open_probes
    then reject cb err_half_open_limit
    else let m = cb.metrics in
      (
        record cb {
          half_open_probes = inc32 cb.half_open_probes;
          metrics = record m {
            probe_attempts = inc64 m.probe_attempts;
            requests_allowed = inc64 m.requests_allowed;
          };
        },
        record { allowed = true; cleanup = release_slot; is_half_open_probe = true },
        none,
      )

-- The `Cleanup` function of a result, called when its request is done.
unfoldable pub run_cleanup : Cleanup → CircuitBreaker → CircuitBreaker
run_cleanup nothing cb = cb
run_cleanup release_slot cb =
    if is_zero cb.half_open_probes
    then cb
    else record cb { half_open_probes = dec32 cb.half_open_probes }

-- `stateTransitions.Add(1)` and `updateStateTime`, which every change of state ends with.
abbrev pub note_transition : CircuitState → ℤ → Metrics → Metrics
note_transition old now m =
    update_state_time old now (record m { state_transitions = inc64 m.state_transitions })

abbrev pub is_state : CircuitState → CircuitState → Bool
is_state state_closed state_closed = true
is_state state_open state_open = true
is_state state_half_open state_half_open = true
is_state _ _ = false

-- The `switch newState` of `transitionTo`.
abbrev pub reset_counters : CircuitState → CircuitBreaker → CircuitBreaker
reset_counters state_closed cb = record cb {
  failures = pos 0;
  successes = pos 0;
  half_open_probes = pos 0;
}
reset_counters state_open cb = record cb {
  failures = pos 0;
  successes = pos 0;
  half_open_probes = pos 0;
}
reset_counters state_half_open cb = record cb { successes = pos 0; half_open_probes = pos 0 }

unfoldable pub transition_to : CircuitState → ℤ → CircuitBreaker → CircuitBreaker
unfolding update_state_time
transition_to new now cb =
    if is_state cb.state new
    then cb
    else let reset = reset_counters new (record cb { state = new }) in
      record reset { metrics = note_transition cb.state now cb.metrics }

-- `time.Since(lastFailure) <= timeout`.
unfoldable pub still_open : Readings → CircuitBreaker → Bool
still_open env cb =
    leb_ℤ (saturate64 (env.since_now -ℤ cb.last_failure_time))
      (int64 (cb.open_timeout +ℤ get_jitter env.int63n cb))

-- The `switch state` of `allow`.
unfoldable pub allow_in : CircuitState → Readings → CircuitBreaker → Allow
allow_in state_closed env cb = (
  count_allowed cb,
  record { allowed = true; cleanup = nothing; is_half_open_probe = false },
  none,
)
allow_in state_open env cb =
    if still_open env cb
    then reject cb err_circuit_open
    else handle_half_open_probe (transition_to state_half_open env.change_now cb)
allow_in state_half_open env cb = handle_half_open_probe cb

unfoldable pub allow : Readings → CircuitBreaker → Allow
unfolding allow_in
allow env cb = allow_in cb.state env cb

-- `if cb.adaptive != nil { cb.adaptive.recordRequest(success) }`.
unfoldable pub observe : Bool → ℤ → Option AdaptiveThresholds → Option AdaptiveThresholds
observe success now none = none
observe success now (some at) = some (record_request success now at)

abbrev pub record_adaptive : Bool → ℤ → CircuitBreaker → CircuitBreaker
record_adaptive success now cb = record cb { adaptive = observe success now cb.adaptive }

-- The `switch` of `recordSuccess`.
unfoldable pub success_in : CircuitState → Readings → CircuitBreaker → CircuitBreaker
success_in state_closed env cb = record cb { failures = pos 0 }
success_in state_half_open env cb =
    let m = cb.metrics in
    let counted = record cb {
      successes = inc32 cb.successes;
      metrics = record m { probe_successes = inc64 m.probe_successes };
    } in
    if leb_ℤ cb.success_threshold counted.successes
    then record counted {
      state = state_closed;
      failures = pos 0;
      successes = pos 0;
      half_open_probes = pos 0;
      metrics = note_transition state_half_open env.change_now counted.metrics;
    }
    else counted
success_in state_open env cb = cb

unfoldable pub record_success : Readings → CircuitBreaker → CircuitBreaker
unfolding success_in
record_success env cb = success_in cb.state env (record_adaptive true env.window_now cb)

-- The threshold that `recordFailure` compares with.
abbrev pub threshold_of : ℤ → Option AdaptiveThresholds → ℤ
threshold_of fixed none = fixed
threshold_of fixed (some at) = get_threshold at

-- The `switch` of `recordFailure`.
unfoldable pub failure_in : CircuitState → Readings → CircuitBreaker → CircuitBreaker
failure_in state_closed env cb =
    let counted = record cb { failures = inc32 cb.failures } in
    if leb_ℤ (threshold_of cb.failure_threshold cb.adaptive) counted.failures
    then record counted {
      state = state_open;
      failures = pos 0;
      successes = pos 0;
      metrics = note_transition state_closed env.change_now cb.metrics;
    }
    else counted
failure_in state_half_open env cb = record cb {
  state = state_open;
  failures = pos 0;
  successes = pos 0;
  half_open_probes = pos 0;
  metrics = note_transition state_half_open env.change_now cb.metrics;
}
failure_in state_open env cb = cb

unfoldable pub record_failure : Readings → CircuitBreaker → CircuitBreaker
unfolding failure_in
record_failure env cb =
    failure_in cb.state env
      (record_adaptive false env.window_now (record cb { last_failure_time = env.failure_now }))
