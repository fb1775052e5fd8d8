-- ===== src/Retry/Bounds.antt =====
-- internal/llm/retry/backoff.go: the range of the waiting times.
use go_judgy.Prelude.{
  ℕ, zero, suc, ◌+◌, ◌*◌, ◌/◌, ◌<◌, ◌≡◌, inl, inr, false, Bool-cases, none, arith,
}
use go_judgy.Prelude.Int.{
  ℤ, pos, negsuc, ◌≤ℤ◌, ◌<ℤ◌, int64, int64-pos, pos-+ℤ, scale, div_trunc, max_int64,
}
use go_judgy.Floats.{Floats}
use go_judgy.Retry.Config.{RetryConfig, validate_config}
use go_judgy.Retry.Backoff.{full_jitter, grow, positive_interval, jittered, exponential}

module _ (F : Floats) where
  open F use {Float, scale_duration}

  -- Multiplying a positive duration up to the maximum by m does not make it shorter. (For m ≥ 1 the
  -- rounding of `float64` respects this for durations up to 2 ^ 53 nanoseconds.)
  abbrev pub NeverShrinks : RetryConfig F → Float → Type 0
  NeverShrinks cfg m = (d : ℤ) → pos 0 ≤ℤ d → d ≤ℤ cfg.max_interval → d ≤ℤ scale_duration d m

  pub grow_bounds :
      (cfg : RetryConfig F) (m : Float) (n : ℕ) (base : ℤ)
      → NeverShrinks cfg m
      → pos 0 ≤ℤ base
      → base ≤ℤ cfg.max_interval
      → (base ≤ℤ grow F cfg m n base) × (grow F cfg m n base ≤ℤ cfg.max_interval)
  unfolding grow
  grow_bounds cfg m zero base h b c = (omega arith, c)
  grow_bounds cfg m (suc n) base h b c =
      let next = scale_duration base m in ground (arith, h base b c, grow_bounds cfg m n next h)

  -- One more multiplication gives no shorter a time.
  grow-suc :
      (cfg : RetryConfig F) (m : Float) (n : ℕ) (base : ℤ)
      → NeverShrinks cfg m
      → pos 0 ≤ℤ base
      → base ≤ℤ cfg.max_interval
      → grow F cfg m n base ≤ℤ grow F cfg m (suc n) base
  unfolding grow
  grow-suc cfg m zero base h b c = ground (arith, h base b c)
  grow-suc cfg m (suc n) base h b c =
      let next = scale_duration base m in ground (arith, h base b c, grow-suc cfg m n next h)

-- What `rand.Int64N` documents: for a positive bound the result lies in [0, bound).
abbrev pub DrawsBelow : (ℤ → ℤ) → Type 0
DrawsBelow int64n = (n : ℕ) → 0 < n → (pos 0 ≤ℤ int64n (pos n)) × (int64n (pos n) <ℤ pos n)

draw_in_milliseconds :
    (a : ℤ) (d : ℕ)
    → pos 0 ≤ℤ a
    → a <ℤ pos (d / 1000000 + 1)
    → d < max_int64
    → (pos 0 ≤ℤ int64 (scale 1000000 a)) × (int64 (scale 1000000 a) ≤ℤ pos d)
unfolding scale
draw_in_milliseconds (pos k) d _ below small =
    rw (int64-pos (1000000 * k) (omega (arith, below, small))) (omega (arith, below))
draw_in_milliseconds (negsuc k) d nonneg _ _ = omega (arith, nonneg)

-- Jitter shortens a natural number of nanoseconds, and not below 0.
full_jitter_bounds :
    (int64n : ℤ → ℤ) (d : ℕ)
    → DrawsBelow int64n
    → d < max_int64
    → (pos 0 ≤ℤ full_jitter int64n (pos d)) × (full_jitter int64n (pos d) ≤ℤ pos d)
unfolding full_jitter div_trunc
full_jitter_bounds int64n d draws small =
    rw (pos-+ℤ (d / 1000000) 1, int64-pos (d / 1000000 + 1) (omega (arith, small)))
      (let below = draws (d / 1000000 + 1) (omega arith) in
        draw_in_milliseconds (int64n (pos (d / 1000000 + 1))) d below.0 below.1 small)

module _ (F : Floats) where
  open F use {Float, one_float, lt_float}

  -- What `NewRetryMiddlewareWithConfig` has checked, in the form that the proofs below use.
  pub record IsChecked (cfg : RetryConfig F) : Type 0 where
    pub positive : pos 0 <ℤ cfg.initial_interval
    pub ordered : cfg.initial_interval ≤ℤ cfg.max_interval
    pub growing : lt_float cfg.multiplier one_float ≡ false
    pub attempts : pos 0 <ℤ cfg.max_attempts
    pub elapsed : pos 0 ≤ℤ cfg.max_elapsed_time

  pub validate_config-IsChecked :
      (cfg : RetryConfig F) → validate_config F cfg ≡ none → IsChecked cfg
  unfolding validate_config
  validate_config-IsChecked cfg ok = record {
    positive = ground (arith, ok);
    ordered = ground (arith, ok);
    growing = ground (arith, ok);
    attempts = ground (arith, ok);
    elapsed = ground (arith, ok);
  }

  pub exponential_bounds :
      (cfg : RetryConfig F) (rounds : ℕ)
      → IsChecked cfg
      → NeverShrinks F cfg cfg.multiplier
      → (cfg.initial_interval ≤ℤ exponential F cfg rounds)
        × (exponential F cfg rounds ≤ℤ cfg.max_interval)
        × (exponential F cfg rounds ≤ℤ exponential F cfg (suc rounds))
  unfolding exponential
  exponential_bounds cfg rounds c h =
      let interval : positive_interval F cfg.initial_interval ≡ cfg.initial_interval =
        ground (arith, c.positive) in
      rw (c.growing, interval)
        (let b =
            grow_bounds F cfg cfg.multiplier rounds cfg.initial_interval h
              (omega (arith, c.positive)) c.ordered in
          (
            b.0,
            b.1,
            grow-suc F cfg cfg.multiplier rounds cfg.initial_interval h (omega (arith, c.positive))
                c.ordered,
          ))

  pub jittered_bounds :
      (cfg : RetryConfig F) (int64n : ℤ → ℤ) (base : ℤ)
      → DrawsBelow int64n
      → pos 0 ≤ℤ base
      → base <ℤ pos max_int64
      → (pos 0 ≤ℤ jittered F cfg int64n base) × (jittered F cfg int64n base ≤ℤ base)
  jittered_bounds cfg int64n (pos d) draws _ small = elim (Bool-cases cfg.use_jitter) [
    | inl e ↦ rw e (full_jitter_bounds int64n d draws (omega (arith, small)))
    | inr e ↦ rw e (omega arith, omega arith)
  ]
  jittered_bounds cfg int64n (negsuc d) draws nonneg _ = omega (arith, nonneg)
