-- ===== src/Breaker/Adaptive.antt =====
-- internal/llm/circuitbreaker/adaptive.go: the failure threshold that follows the error rate.
-- The `float64` comparisons are exact integer ones: for counts below 2 ^ 50 the rounded quotient of
-- failures by requests exceeds 0.5 or 0.3 exactly when the true one does.
use go_judgy.Prelude.{ℕ, Bool, true, false, ◌||◌, if◌then◌else◌}
use go_judgy.Prelude.Int.{ℤ, pos, ◌-ℤ◌, ltb_ℤ, int32, int64, inc64, scale, div_trunc, max_int32}
use go_judgy.Breaker.State.{AdaptiveThresholds}

abbrev pub min_requests_for_adjustment : ℤ
min_requests_for_adjustment = pos 10

-- One minute in nanoseconds.
abbrev pub window : ℤ
window = pos 60000000000

-- "Ensure … fits in int32": a value out of range becomes the largest one.
abbrev pub fit_int32 : ℤ → ℤ
fit_int32 a = if ltb_ℤ a (pos 0) || ltb_ℤ (pos max_int32) a then pos max_int32 else a

-- `errorRate > num / den`.
abbrev pub rate_exceeds : ℕ → ℕ → AdaptiveThresholds → Bool
rate_exceeds num den at = ltb_ℤ (scale num at.total_requests) (scale den at.total_failures)

unfoldable pub new_adaptive_thresholds : ℤ → ℤ → AdaptiveThresholds
new_adaptive_thresholds base now = record {
  base_failure_threshold = base;
  current_threshold = fit_int32 base;
  total_requests = pos 0;
  total_failures = pos 0;
  window_start = now;
  window_duration = window;
}

-- The `switch` of `adjust`. The conversion of a negative product is in range for the base
-- thresholds above -2 ^ 31.
unfoldable pub target_threshold : AdaptiveThresholds → ℤ
unfolding scale div_trunc int32
target_threshold at =
    if rate_exceeds 1 2 at
    then fit_int32 (div_trunc at.base_failure_threshold 2)
    else if rate_exceeds 3 10 at
    then (if ltb_ℤ (scale 4 (pos max_int32)) (scale 3 at.base_failure_threshold)
        then pos max_int32
        else int32 (div_trunc (scale 3 at.base_failure_threshold) 4))
    else fit_int32 at.base_failure_threshold

unfoldable pub adjust : AdaptiveThresholds → AdaptiveThresholds
adjust at =
    if ltb_ℤ at.total_requests min_requests_for_adjustment
    then at
    else let new = target_threshold at in
      record at { current_threshold = if ltb_ℤ new (pos 1) then pos 1 else new }

-- The window starts anew when it is older than its duration.
unfoldable pub reset_window : ℤ → AdaptiveThresholds → AdaptiveThresholds
reset_window now at =
    if ltb_ℤ at.window_duration (int64 (now -ℤ at.window_start))
    then record at { total_requests = pos 0; total_failures = pos 0; window_start = now }
    else at

abbrev pub count_request : Bool → AdaptiveThresholds → AdaptiveThresholds
count_request true at = record at { total_requests = inc64 at.total_requests }
count_request false at = record at {
  total_requests = inc64 at.total_requests;
  total_failures = inc64 at.total_failures;
}

unfoldable pub record_request : Bool → ℤ → AdaptiveThresholds → AdaptiveThresholds
unfolding reset_window
record_request success now at = adjust (count_request success (reset_window now at))

unfoldable pub get_threshold : AdaptiveThresholds → ℤ
get_threshold at = at.current_threshold
