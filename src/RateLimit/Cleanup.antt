-- ===== src/RateLimit/Cleanup.antt =====
-- internal/llm/ratelimit/middleware.go: the removal of stale buckets.
use go_judgy.Prelude.{true, not, ◌&&◌, Option, none, some, List, [], ◌∷◌, if◌then◌else◌}
use go_judgy.Prelude.Int.{is_zero_ℤ, ℤ, pos, ltb_ℤ, ◌-ℤ◌}
use go_judgy.Prelude.Bytes.{Bytes}
use go_judgy.RateLimit.Limiter.{Limiters}
use go_judgy.RateLimit.Config.{LocalRateLimitConfig}
use go_judgy.RateLimit.State.{TimedLimiter, M, ◌>>◌, w_lock, w_unlock}
use go_judgy.RateLimit.Local.{Moments}

module _ (L : Limiters) where
  open L use {Limiter, new_limiter, reserve, reserved, delay, cancel}

  -- What becomes of a stale entry: nothing (it is deleted), or a bucket that holds no token.
  unfoldable pub retire :
      LocalRateLimitConfig L → Moments → TimedLimiter L → Option (TimedLimiter L)
  retire cfg m tl =
      let (after, reservation) = reserve m.reserved_at tl.limiter in
      let full = reserved reservation && is_zero_ℤ (delay m.delayed_at reservation) in
      if full && not tl.exhausted
      then none
      else some record {
        limiter = new_limiter cfg.tokens_per_second (pos 0);
        last_used = tl.last_used;
        exhausted = true;
      }

  abbrev pub keep :
      Bytes
      → Option (TimedLimiter L)
      → List (Bytes × TimedLimiter L)
      → List (Bytes × TimedLimiter L)
  keep key none rest = rest
  keep key (some tl) rest = (key, tl) ∷ rest

  -- The loop of `CleanupStale` over the map.
  unfoldable pub cleanup_entries :
      LocalRateLimitConfig L
      → Moments
      → ℤ
      → List (Bytes × TimedLimiter L)
      → List (Bytes × TimedLimiter L)
  unfolding retire
  cleanup_entries cfg m cutoff [] = []
  cleanup_entries cfg m cutoff ((key, tl) ∷ entries) =
      let rest = cleanup_entries cfg m cutoff entries in
      if ltb_ℤ tl.last_used cutoff then keep key (retire cfg m tl) rest else (key, tl) ∷ rest

  -- `CleanupStale(before)`, where `min_ttl` is `limiterMinTTL`.
  unfoldable pub cleanup_stale : LocalRateLimitConfig L → ℤ → Moments → ℤ → M L (Unit {0})
  unfolding cleanup_entries
  cleanup_stale cfg min_ttl m before =
      w_lock
      >> ((λ s. some (
        tt,
        record s { local_limiters = cleanup_entries cfg m (before -ℤ min_ttl) s.local_limiters },
      ))
          >> w_unlock)
