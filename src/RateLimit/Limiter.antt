-- ===== src/RateLimit/Limiter.antt =====
-- The token buckets of golang.org/x/time/rate, as an interface without laws: what internal/llm/ratelimit
-- calls of them. A method of a `*rate.Limiter` gives the limiter as it is after the call; times are
-- nanoseconds.
use go_judgy.Prelude.{Bool}
use go_judgy.Prelude.Int.{ℤ}

pub record Limiters : Type 1 where
  -- `rate.Limit`, a `float64`.
  pub Rate : Type 0
  pub Limiter : Type 0
  pub Reservation : Type 0
  pub new_limiter : Rate → ℤ → Limiter
  pub allow : ℤ → Limiter → Limiter × Bool
  pub reserve : ℤ → Limiter → Limiter × Reservation
  pub reserved : Reservation → Bool
  pub delay : ℤ → Reservation → ℤ
  pub cancel : ℤ → Reservation → Limiter → Limiter
  -- The rate of ten a second, `int(r)` of a rate, and `int(math.Ceil(d.Seconds()))`.
  pub default_rate : Rate
  pub zero_rate : Rate
  pub lt_rate : Rate → Rate → Bool
  pub int_of_rate : Rate → ℤ
  pub ceil_seconds : ℤ → ℤ
