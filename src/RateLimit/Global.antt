-- ===== src/RateLimit/Global.antt =====
-- internal/llm/ratelimit/global_limiter.go and middleware.go: the check against the window in Redis.
-- What the script run answers is an argument, for the limit that it is run with.
use go_judgy.Prelude.{
  Bool, true, false, ◌||◌, Option, none, some, List, [], ◌∷◌, ◌++◌, if◌then◌else◌,
}
use go_judgy.Prelude.Int.{ℤ, pos, leb_ℤ, ltb_ℤ, int64, div_trunc, is_zero_ℤ}
use go_judgy.Prelude.Bytes.{bytes}
use go_judgy.Errors.Types.{
  Err, plain_error, wrapped, foreign, workflow_error_of, joined, Network, no_network,
}
use go_judgy.Errors.Text.{error_text, show_int}
use go_judgy.RateLimit.Limiter.{Limiters}
use go_judgy.RateLimit.Config.{GlobalRateLimitConfig}
use go_judgy.RateLimit.State.{M, ◌>>◌, pure}
use go_judgy.RateLimit.Local.{limit_error}

-- A value of a reply of Redis: an `int64`, or any other.
pub data RedisValue : Type 0 where
  integer : ℤ → RedisValue
  other_value : RedisValue

pub data ScriptReply : Type 0 where
  failed : Err → ScriptReply
  values : List RedisValue → ScriptReply
  no_list : ScriptReply

-- The milliseconds that a refusal is for: those of the reply if they are positive, else a second.
abbrev pub wait_ms : RedisValue → ℤ
wait_ms other_value = pos 1000
wait_ms (integer ms) = if leb_ℤ ms (pos 0) then pos 1000 else ms

abbrev pub clamp_seconds : ℤ → ℤ
clamp_seconds n = if ltb_ℤ n (pos 1) then pos 1 else if ltb_ℤ (pos 3600) n then pos 3600 else n

unfoldable pub refusal : ℤ → RedisValue → Err
unfolding div_trunc
refusal limit v = limit_error (bytes "global") limit (clamp_seconds (div_trunc (wait_ms v) 1000))

module _ {L : Limiters} where
  abbrev pub enter_degraded_mode : M L (Unit {0})
  enter_degraded_mode s = some (tt, record s { degraded_mode = true })

  -- The reading of a reply; one that is not of the expected form enters the degraded mode.
  unfoldable pub read_reply : ℤ → ScriptReply → M L (Option Err)
  unfolding refusal
  read_reply limit (failed e) =
      pure (some (wrapped (bytes "global rate limit check failed: " ++ error_text e) e))
  read_reply limit no_list = enter_degraded_mode >> pure none
  read_reply limit (values []) = enter_degraded_mode >> pure none
  read_reply limit (values (v ∷ [])) = enter_degraded_mode >> pure none
  read_reply limit (values (other_value ∷ v ∷ vs)) = enter_degraded_mode >> pure none
  read_reply limit (values (integer allowed ∷ v ∷ vs)) =
      if is_zero_ℤ allowed then pure (some (refusal limit v)) else pure none

  -- `checkGlobalLimit`; `has_client` tells whether there is a Redis client.
  unfoldable pub check_global_limit : GlobalRateLimitConfig → Bool → ScriptReply → M L (Option Err)
  unfolding read_reply
  check_global_limit cfg has_client reply =
      let limit = int64 cfg.requests_per_second in
      if has_client
      then (if ltb_ℤ limit (pos 0)
          then pure (
              some (
                wrapped
                  (bytes "invalid global rate limit: RequestsPerSecond cannot be negative (got "
                    ++ (show_int limit ++ bytes ")"))
                  (plain_error
                    (bytes "invalid global rate limit: RequestsPerSecond cannot be negative"))))
          else if is_zero_ℤ limit
          then pure none
          else read_reply limit reply)
      else pure none

-- What `errors.As` finds with `net.Error`: every network type is one.
abbrev pub is_net_error : Network → Bool
is_net_error no_network = false
is_net_error _ = true

abbrev pub has_redis_cause : Err → Bool
has_redis_cause (foreign f) =
    f.redis || (f.deadline_exceeded || (f.canceled || is_net_error f.network))
has_redis_cause (workflow_error_of w cause) = has_redis_cause cause
has_redis_cause (wrapped m e) = has_redis_cause e
has_redis_cause (joined m a b) = has_redis_cause a || has_redis_cause b
has_redis_cause _ = false

-- `isRedisError` of an error that is not nil: a Redis error, a deadline, a cancellation or a network
-- error stands in its chain.
unfoldable pub is_redis_error : Err → Bool
is_redis_error e = has_redis_cause e
