-- ===== src/RateLimit/Middleware.antt =====
-- internal/llm/ratelimit/middleware.go: the handler of the rate limiting middleware. Logging, the
-- connection to Redis and the goroutine that calls `CleanupStale` are left out.
use go_judgy.Prelude.{Bool, not, ◌&&◌, Option, none, some, List, ◌++◌, if◌then◌else◌}
use go_judgy.Prelude.Bytes.{Bytes, bytes}
use go_judgy.Errors.Types.{Err}
use go_judgy.Transport.{operation_text, Request, Context, Reply, Handler}
use go_judgy.RateLimit.Limiter.{Limiters}
use go_judgy.RateLimit.Config.{RateLimitConfig}
use go_judgy.RateLimit.State.{TimedLimiter, RateLimitState, M, ◌>>=◌, ◌>>◌, pure}
use go_judgy.RateLimit.Local.{Moments, check_local_limit, check_fallback_limit}
use go_judgy.RateLimit.Global.{ScriptReply, check_global_limit, is_redis_error, enter_degraded_mode}

-- `buildKey`: tenant:provider:model:operation.
unfoldable pub limit_key : Request → Bytes
limit_key req =
    req.tenant_id
    ++ (bytes ":"
        ++ (req.provider
            ++ (bytes ":" ++ (req.model ++ (bytes ":" ++ operation_text req.operation)))))

module _ (L : Limiters) where
  -- What one request meets: the clock in its checks, the answer of Redis, and the other goroutines.
  pub record Encounter : Type 0 where
    pub local : Moments
    pub fallback : Moments
    pub fallback_again : Moments
    pub reply : ScriptReply
    pub others : List (Bytes × TimedLimiter L) → List (Bytes × TimedLimiter L)

  module _ (cfg : RateLimitConfig L) (has_client : Bool) where
    -- After an error of the global check.
    abbrev pub after_global : Encounter → Bytes → Option Err → M L (Option Err)
    after_global env key none = pure none
    after_global env key (some e) =
        if not (is_redis_error e)
        then pure (some e)
        else enter_degraded_mode
          >> (if not cfg.local.enabled
              then check_fallback_limit L env.others env.fallback key
              else pure none)

    unfoldable pub handle_global_limit : Encounter → Bytes → M L (Option Err)
    handle_global_limit env key =
        check_global_limit cfg.global has_client env.reply >>= after_global env key

    -- The three phases, each with the error that ends the request.
    abbrev pub local_phase : Encounter → Bytes → M L (Option Err)
    local_phase env key =
        if cfg.local.enabled
        then check_local_limit L env.others cfg.local env.local key
        else pure none

    abbrev pub global_phase : Encounter → Bytes → M L (Option Err)
    global_phase env key s =
        if cfg.global.enabled && not s.degraded_mode
        then handle_global_limit env key s
        else pure none s

    abbrev pub fallback_phase : Encounter → Bytes → M L (Option Err)
    fallback_phase env key s =
        if cfg.global.enabled && (s.degraded_mode && not cfg.local.enabled)
        then check_fallback_limit L env.others env.fallback_again key s
        else pure none s

    abbrev pub unless : Option Err → M L (Option Err) → M L (Option Err)
    unless (some e) next = pure (some e)
    unless none next = next

    -- All checks of a request; `none` lets it pass.
    unfoldable pub check_limits : Encounter → Bytes → M L (Option Err)
    unfolding handle_global_limit
    check_limits env key = local_phase env key >>= λ e.
        unless e (global_phase env key >>= λ e'. unless e' (fallback_phase env key))

    -- The handler; `none` is the end of the program.
    unfoldable pub handle :
        {W : Type 0}
        → Handler W
        → Encounter
        → Context
        → Request
        → RateLimitState L × W
        → Option ((RateLimitState L × W) × Reply)
    unfolding check_limits
    handle next env ctx req (s, w) = elim (check_limits env (limit_key req) s) [
      | none ↦ none
      | some (some e, s') ↦ some ((s', w), (none, some e))
      | some (none, s') ↦ let (w', reply) = next ctx req w in some ((s', w'), reply)
    ]
