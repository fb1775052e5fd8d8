-- ===== src/Breaker/State.antt =====
-- internal/llm/circuitbreaker/circuit_breaker.go and metrics.go: the state of one breaker.
-- The code stores no `CircuitState` but the three constants, so the type has three values.
-- `int32` and `int64` fields are integers in range, an `int` or a `time.Duration` any ℤ.
use go_judgy.Prelude.{Option, if◌then◌else◌, ◌==◌, Bool, false}
use go_judgy.Prelude.Int.{ℤ, pos, negsuc, ◌+ℤ◌, ◌-ℤ◌, int64}

pub data CircuitState : Type 0 where
  state_closed state_open state_half_open : CircuitState

pub record Metrics : Type 0 where
  pub state_transitions : ℤ
  pub requests_allowed : ℤ
  pub requests_rejected : ℤ
  pub probe_attempts : ℤ
  pub probe_successes : ℤ
  pub probe_guard_conflicts : ℤ
  pub time_in_closed : ℤ
  pub time_in_open : ℤ
  pub time_in_half_open : ℤ
  pub last_state_change : ℤ

pub record AdaptiveThresholds : Type 0 where
  pub base_failure_threshold : ℤ
  pub current_threshold : ℤ
  pub total_requests : ℤ
  pub total_failures : ℤ
  pub window_start : ℤ
  pub window_duration : ℤ

pub record CircuitBreaker : Type 0 where
  pub state : CircuitState
  pub failures : ℤ
  pub successes : ℤ
  pub last_failure_time : ℤ
  pub half_open_probes : ℤ
  pub failure_threshold : ℤ
  pub success_threshold : ℤ
  pub open_timeout : ℤ
  pub max_half_open_probes : ℤ
  pub adaptive : Option AdaptiveThresholds
  pub metrics : Metrics

pub record Config : Type 0 where
  pub failure_threshold : ℤ
  pub success_threshold : ℤ
  pub open_timeout : ℤ
  pub half_open_probes : ℤ
  pub probe_timeout : ℤ
  pub max_breakers : ℤ
  pub adaptive_thresholds : Bool

abbrev pub is_zero : ℤ → Bool
is_zero (pos n) = n == 0
is_zero (negsuc n) = false

-- The `switch` of `updateStateTime`.
abbrev pub add_time : CircuitState → ℤ → Metrics → Metrics
add_time state_closed d m = record m { time_in_closed = int64 (m.time_in_closed +ℤ d) }
add_time state_open d m = record m { time_in_open = int64 (m.time_in_open +ℤ d) }
add_time state_half_open d m = record m { time_in_half_open = int64 (m.time_in_half_open +ℤ d) }

-- `updateStateTime`: the time since the last change is added to the state that was left.
unfoldable pub update_state_time : CircuitState → ℤ → Metrics → Metrics
update_state_time current now m =
    if is_zero m.last_state_change
    then record m { last_state_change = now }
    else let timed = add_time current (int64 (now -ℤ m.last_state_change)) m in
      record timed { last_state_change = now }
