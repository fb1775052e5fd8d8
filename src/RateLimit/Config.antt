-- ===== src/RateLimit/Config.antt =====
-- internal/llm/ratelimit/validation.go and internal/llm/configuration/config.go: the configuration of
-- the middleware and its checks. The address and the password of Redis are left out.
use go_judgy.Prelude.{Bool, ◌&&◌, not, Option, none, some, if◌then◌else◌}
use go_judgy.Prelude.Int.{ℤ, pos, ltb_ℤ}
use go_judgy.Errors.Types.{or_else}
use go_judgy.RateLimit.Limiter.{Limiters}

pub data LimitConfigError : Type 0 where
  negative_tokens_per_second negative_burst_size invalid_burst_size : LimitConfigError
  negative_requests_per_second : LimitConfigError

pub record GlobalRateLimitConfig : Type 0 where
  pub enabled : Bool
  pub requests_per_second : ℤ

module _ (L : Limiters) where
  open L use {Rate, zero_rate, lt_rate}

  pub record LocalRateLimitConfig : Type 0 where
    pub tokens_per_second : Rate
    pub burst_size : ℤ
    pub enabled : Bool

  pub record RateLimitConfig : Type 0 where
    pub local : LocalRateLimitConfig
    pub global : GlobalRateLimitConfig

  -- A rate that is neither below nor above zero is zero.
  unfoldable pub validate_local_rate_limit_config : LocalRateLimitConfig → Option LimitConfigError
  validate_local_rate_limit_config cfg =
      if not cfg.enabled
      then none
      else if lt_rate cfg.tokens_per_second zero_rate
      then some negative_tokens_per_second
      else if ltb_ℤ cfg.burst_size (pos 0)
      then some negative_burst_size
      else if not (lt_rate zero_rate cfg.tokens_per_second) && ltb_ℤ (pos 0) cfg.burst_size
      then some invalid_burst_size
      else none

unfoldable pub validate_global_rate_limit_config : GlobalRateLimitConfig → Option LimitConfigError
validate_global_rate_limit_config cfg =
    if not cfg.enabled
    then none
    else if ltb_ℤ cfg.requests_per_second (pos 0)
    then some negative_requests_per_second
    else none

unfoldable pub validate_rate_limit_config :
    (L : Limiters) → RateLimitConfig L → Option LimitConfigError
unfolding validate_local_rate_limit_config validate_global_rate_limit_config
validate_rate_limit_config L cfg =
    or_else (validate_local_rate_limit_config L cfg.local)
      (validate_global_rate_limit_config cfg.global)
