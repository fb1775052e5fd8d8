-- ===== src/Retry/Config.antt =====
-- internal/llm/configuration/config.go and internal/llm/retry/middleware.go: the configuration of
-- the retry middleware and its validation.
use go_judgy.Prelude.{Bool, Option, none, some, if◌then◌else◌}
use go_judgy.Prelude.Int.{ℤ, pos, leb_ℤ, ltb_ℤ}
use go_judgy.Floats.{Floats}

pub data ConfigError : Type 0 where
  max_attempts_invalid initial_interval_invalid max_interval_invalid : ConfigError
  multiplier_invalid max_elapsed_time_invalid : ConfigError

module _ (F : Floats) where
  open F use {Float, one_float, lt_float}

  pub record RetryConfig : Type 0 where
    pub max_attempts : ℤ
    pub max_elapsed_time : ℤ
    pub initial_interval : ℤ
    pub max_interval : ℤ
    pub multiplier : Float
    pub use_jitter : Bool
    pub max_cost_cents : ℤ
    pub max_tokens : ℤ
    pub enable_budget : Bool

  -- The tests of `NewRetryMiddlewareWithConfig`, the first that fails; `none` is no error.
  unfoldable pub validate_config : RetryConfig → Option ConfigError
  validate_config cfg =
      if leb_ℤ cfg.max_attempts (pos 0)
      then some max_attempts_invalid
      else if leb_ℤ cfg.initial_interval (pos 0)
      then some initial_interval_invalid
      else if ltb_ℤ cfg.max_interval cfg.initial_interval
      then some max_interval_invalid
      else if lt_float cfg.multiplier one_float
      then some multiplier_invalid
      else if ltb_ℤ cfg.max_elapsed_time (pos 0)
      then some max_elapsed_time_invalid
      else none
