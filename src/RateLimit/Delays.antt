-- ===== src/RateLimit/Delays.antt =====
-- internal/llm/ratelimit/global_limiter.go: the delay that a refusal of the global window asks for.
use go_judgy.Prelude.{
  ℕ, ◌+◌, ◌*◌, ◌/◌, ◌≤◌, ◌<◌, ◌≡◌, ◌∙◌, refl, ap, ◌⊎◌, inl, inr, Bool-cases, ltb, arith,
  if◌then◌else◌,
}
use go_judgy.Prelude.Int.{ℤ, pos, pos_part, div_trunc}
use go_judgy.Errors.Types.{as_rate_limit_error}
use go_judgy.Errors.Classify.{get_retry_after}
use go_judgy.RateLimit.Global.{RedisValue, integer, other_value, wait_ms, clamp_seconds, refusal}

-- The seconds of m milliseconds, at least 1 and at most an hour.
abbrev pub seconds : ℕ → ℕ
seconds m = if ltb (m / 1000) 1 then 1 else if ltb 3600 (m / 1000) then 3600 else m / 1000

seconds-range : (m : ℕ) → (1 ≤ seconds m) × (seconds m ≤ 3600)
seconds-range m = (ground arith, ground arith)

seconds-floor :
    (m : ℕ) → 1000 ≤ m → m < 3601000 → (seconds m * 1000 ≤ m) × (m < seconds m * 1000 + 1000)
seconds-floor m h k = (ground (arith, h, k), ground (arith, h, k))

clamp_seconds-pos : (m : ℕ) → clamp_seconds (div_trunc (pos m) 1000) ≡ pos (seconds m)
unfolding div_trunc
clamp_seconds-pos m = ground arith

seconds-reach : (m : ℕ) → (seconds m ≡ 3600) ⊎ (m < seconds m * 1000 + 1000)
seconds-reach m = elim (Bool-cases (ltb 3600 (m / 1000))) [
  | inl long ↦ inl (ground (arith, long))
  | inr short ↦ inr (ground (arith, short))
]

wait_ms-pos : (v : RedisValue) → wait_ms v ≡ pos (pos_part (wait_ms v))
wait_ms-pos other_value = refl
wait_ms-pos (integer ms) = ground arith

-- The delay that the retry middleware reads from a refusal of the global window is from 1 to 3600
-- seconds, whatever Redis answers; unless it is 3600, it is less than a second shorter than the
-- milliseconds of the answer (or than the second that stands for an answer that is not positive).
pub refusal-delay :
    (limit : ℤ) (v : RedisValue)
    → (r : ℕ) × (get_retry_after (refusal limit v) ≡ pos r
        × (1 ≤ r × (r ≤ 3600 × ((r ≡ 3600) ⊎ (pos_part (wait_ms v) < r * 1000 + 1000)))))
unfolding get_retry_after as_rate_limit_error refusal
refusal-delay limit v =
    let m = pos_part (wait_ms v) in
    (
      seconds m,
      (
        ap (λ w. clamp_seconds (div_trunc w 1000)) (wait_ms-pos v) ∙ clamp_seconds-pos m,
        ((seconds-range m).0, ((seconds-range m).1, seconds-reach m)),
      ),
    )
