-- ===== src/Breaker/Threshold.antt =====
-- internal/llm/circuitbreaker/adaptive.go: the range of the adaptive threshold, and its value for
-- each error rate.
use Prim.Native.Nat.{max}
use go_judgy.Prelude.{ℕ, ◌≡◌, ◌*◌, ◌/◌, Bool, true, false, arith, ◌≤◌, if◌then◌else◌, ltb}
use go_judgy.Prelude.Int.{ℤ, pos, ◌≤ℤ◌, max_int32}
use go_judgy.Breaker.State.{AdaptiveThresholds}
use go_judgy.Breaker.Adaptive.{
  target_threshold, adjust, reset_window, record_request, new_adaptive_thresholds, count_request,
}

-- A positive int32.
abbrev pub InRange : ℤ → Type 0
InRange t = (pos 1 ≤ℤ t) × (t ≤ℤ pos max_int32)

pub record IsTuned (at : AdaptiveThresholds) : Type 0 where
  pub base : InRange at.base_failure_threshold
  pub current : InRange at.current_threshold

target_threshold-le :
    (at : AdaptiveThresholds)
    → InRange at.base_failure_threshold
    → target_threshold at ≤ℤ pos max_int32
unfolding target_threshold
target_threshold-le at h = ground arith

adjust-IsTuned : (at : AdaptiveThresholds) → IsTuned at → IsTuned (adjust at)
unfolding adjust
adjust-IsTuned at h = ground (arith, target_threshold-le at)

reset_window-IsTuned :
    (now : ℤ) (at : AdaptiveThresholds) → IsTuned at → IsTuned (reset_window now at)
unfolding reset_window
reset_window-IsTuned now at h = ground arith

count_request-IsTuned :
    (success : Bool) (at : AdaptiveThresholds) → IsTuned at → IsTuned (count_request success at)
count_request-IsTuned true at h = ground arith
count_request-IsTuned false at h = ground arith

pub record_request-IsTuned :
    (success : Bool) (now : ℤ) (at : AdaptiveThresholds)
    → IsTuned at
    → IsTuned (record_request success now at)
unfolding record_request
record_request-IsTuned success now at h =
    adjust-IsTuned _ (count_request-IsTuned success _ (reset_window-IsTuned now at h))

pub new_adaptive_thresholds-IsTuned :
    (base now : ℤ) → InRange base → IsTuned (new_adaptive_thresholds base now)
unfolding new_adaptive_thresholds
new_adaptive_thresholds-IsTuned base now h = ground arith

-- With a base threshold b that is a positive int32 and f failures in t requests, at least ten,
-- `adjust` sets the threshold to b / 2 if more than half failed, else to 3 b / 4 if more than
-- three tenths failed, else to b; but never below 1.
pub adjust_rates :
    (at : AdaptiveThresholds) (b f t : ℕ)
    → at.base_failure_threshold ≡ pos b
    → at.total_failures ≡ pos f
    → at.total_requests ≡ pos t
    → 1 ≤ b
    → b ≤ max_int32
    → 10 ≤ t
    → (adjust at).current_threshold
      ≡ pos (max 1 (if ltb t (2 * f) then b / 2 else if ltb (3 * t) (10 * f) then 3 * b / 4 else b))
unfolding adjust target_threshold
adjust_rates at b f t eb ef et b1 b2 t10 = ground arith
