-- ===== src/Retry/Waiting.antt =====
-- internal/llm/retry/backoff.go and middleware.go: what the waiting times promise.
use go_judgy.Prelude.{ℕ, suc, ◌≡◌, false, none, some, arith}
use go_judgy.Prelude.Int.{
  ℤ, pos, negsuc, ◌+ℤ◌, ◌≤ℤ◌, ◌<ℤ◌, ltb_ℤ, int64, int64-pos, +ℤ_parts, max_int64,
}
use go_judgy.Prelude.Bytes.{Bytes}
use go_judgy.Errors.Types.{Err}
use go_judgy.Floats.{Floats}
use go_judgy.Retry.Config.{RetryConfig, validate_config}
use go_judgy.Retry.Backoff.{
  grow, exponential, extract_retry_after, calculate_backoff, calculate_pure_exponential_backoff,
  validate_backoff,
}
use go_judgy.Retry.Bounds.{
  NeverShrinks, DrawsBelow, validate_config-IsChecked, exponential_bounds, jittered_bounds,
  grow_bounds,
}

int64_nonneg : (a : ℤ) → pos 0 ≤ℤ a → a ≤ℤ pos max_int64 → int64 a ≡ a
int64_nonneg (pos n) _ small = int64-pos n (omega (arith, small))
int64_nonneg (negsuc n) nonneg _ = ground (arith, nonneg)

+ℤ-nonneg : (a b : ℤ) → pos 0 ≤ℤ a → pos 0 ≤ℤ b → pos 0 ≤ℤ a +ℤ b
+ℤ-nonneg a b h k = omega (arith, h, k, +ℤ_parts a b)

+ℤ-mono : (a b c : ℤ) → b ≤ℤ c → a +ℤ b ≤ℤ a +ℤ c
+ℤ-mono a b c h = omega (arith, h, +ℤ_parts a b, +ℤ_parts a c)

module _ (F : Floats) where
  -- With a configuration that `NewRetryMiddlewareWithConfig` accepts, a maximum below the largest
  -- int64, a multiplication that never shrinks a duration up to the maximum and a generator that
  -- draws below its bound, an error that suggests no positive wait is followed by one between zero
  -- and the exponential interval. That interval lies between the initial and the maximum interval
  -- and does not fall from one attempt to the next.
  pub calculate_backoff_bounds :
      (cfg : RetryConfig F) (parse_text : Bytes → ℤ) (int64n : ℤ → ℤ) (rounds : ℕ) (e : Err)
      → validate_config F cfg ≡ none
      → cfg.max_interval <ℤ pos max_int64
      → NeverShrinks F cfg cfg.multiplier
      → DrawsBelow int64n
      → extract_retry_after parse_text e ≤ℤ pos 0
      → (pos 0 ≤ℤ calculate_backoff F cfg parse_text int64n rounds e)
        × (calculate_backoff F cfg parse_text int64n rounds e ≤ℤ exponential F cfg rounds)
        × (cfg.initial_interval ≤ℤ exponential F cfg rounds)
        × (exponential F cfg rounds ≤ℤ exponential F cfg (suc rounds))
        × (exponential F cfg rounds ≤ℤ cfg.max_interval)
  unfolding calculate_backoff
  calculate_backoff_bounds cfg parse_text int64n rounds e ok small shrinks draws unguided =
      let c = validate_config-IsChecked F cfg ok in
      let b = exponential_bounds F cfg rounds c shrinks in
      let j =
        jittered_bounds F cfg int64n (exponential F cfg rounds) draws (omega (arith, c.positive, b))
          (omega (arith, b, small)) in
      let unguided' : ltb_ℤ (pos 0) (extract_retry_after parse_text e) ≡ false =
        ground (arith, unguided) in
      rw unguided' (j.0, j.1, b.0, b.2, b.1)

  pure_exponential_bounds :
      (cfg : RetryConfig F) (int64n : ℤ → ℤ) (rounds : ℕ)
      → validate_config F cfg ≡ none
      → cfg.max_interval <ℤ pos max_int64
      → NeverShrinks F cfg cfg.multiplier
      → DrawsBelow int64n
      → (pos 0 ≤ℤ calculate_pure_exponential_backoff F cfg int64n rounds)
        × (calculate_pure_exponential_backoff F cfg int64n rounds ≤ℤ cfg.max_interval)
  unfolding calculate_pure_exponential_backoff
  pure_exponential_bounds cfg int64n rounds ok small shrinks draws =
      let c = validate_config-IsChecked F cfg ok in
      let b =
        grow_bounds F cfg cfg.multiplier rounds cfg.initial_interval shrinks
          (omega (arith, c.positive)) c.ordered in
      let j =
        jittered_bounds F cfg int64n (grow F cfg cfg.multiplier rounds cfg.initial_interval) draws
          (omega (arith, c.positive, b)) (omega (arith, b, small)) in
      (j.0, omega (arith, j, b))

  -- With a configuration that `NewRetryMiddlewareWithConfig` accepts and that limits the time of a
  -- request, a maximum interval below the largest int64, a multiplication that never shrinks a
  -- duration up to the maximum and a generator that draws below its bound, a wait that
  -- `validateBackoffWithTimeout` lets through is not negative and ends within the limit, when the
  -- wait proposed and the time passed are natural numbers of nanoseconds whose sum is an int64, and
  -- so is the sum of the maximum interval and the time passed.
  pub validate_backoff_ends :
      (cfg : RetryConfig F) (parse_text : Bytes → ℤ) (int64n : ℤ → ℤ) (backoff elapsed wait : ℤ)
      (rounds : ℕ) (e : Err)
      → validate_config F cfg ≡ none
      → cfg.max_interval <ℤ pos max_int64
      → NeverShrinks F cfg cfg.multiplier
      → DrawsBelow int64n
      → pos 0 <ℤ cfg.max_elapsed_time
      → pos 0 ≤ℤ backoff
      → pos 0 ≤ℤ elapsed
      → elapsed +ℤ backoff ≤ℤ pos max_int64
      → elapsed +ℤ cfg.max_interval ≤ℤ pos max_int64
      → validate_backoff F cfg parse_text int64n backoff elapsed rounds e ≡ some wait
      → (pos 0 ≤ℤ wait) × (elapsed +ℤ wait ≤ℤ cfg.max_elapsed_time)
  unfolding validate_backoff
  validate_backoff_ends cfg parse_text int64n backoff elapsed wait rounds e ok small shrinks draws
        limited nonneg passed no_overflow no_overflow' accepted =
      let fallback = calculate_pure_exponential_backoff F cfg int64n rounds in
      let b = pure_exponential_bounds cfg int64n rounds ok small shrinks draws in
      let sum =
        int64_nonneg (elapsed +ℤ backoff) (+ℤ-nonneg elapsed backoff passed nonneg) no_overflow in
      let sum' =
        int64_nonneg (elapsed +ℤ fallback) (+ℤ-nonneg elapsed fallback passed b.0)
          (omega (arith, no_overflow', +ℤ-mono elapsed fallback cfg.max_interval b.1)) in
      ground (arith, accepted, sum, sum', b.0, nonneg, limited)
