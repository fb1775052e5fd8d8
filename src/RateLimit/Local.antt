-- ===== src/RateLimit/Local.antt =====
-- internal/llm/ratelimit/local_limiter.go, fallback_limiter.go and middleware.go: the checks against
-- token buckets of this process. A bucket is shared by pointer: what a method changes is written
-- back to the entry that holds it. Between the two looks of a double-checked lock the mutex is free,
-- and `others` is what other goroutines do to the map then.
use go_judgy.Prelude.{true, false, Option, none, some, List, ◌++◌, if◌then◌else◌}
use go_judgy.Prelude.Int.{ℤ, pos, ltb_ℤ}
use go_judgy.Prelude.Bytes.{Bytes, bytes}
use go_judgy.Errors.Types.{Err, rate_limit_error}
use go_judgy.RateLimit.Limiter.{Limiters}
use go_judgy.RateLimit.Config.{LocalRateLimitConfig}
use go_judgy.RateLimit.State.{
  TimedLimiter, M, ◌>>=◌, ◌>>◌, pure, r_lock, r_unlock, w_lock, w_unlock, find, store, meanwhile,
}

-- The readings of the clock in one check.
pub record Moments : Type 0 where
  pub touched : ℤ
  pub asked : ℤ
  pub reserved_at : ℤ
  pub delayed_at : ℤ
  pub cancelled_at : ℤ

abbrev pub at_least_one : ℤ → ℤ
at_least_one n = if ltb_ℤ n (pos 1) then pos 1 else n

abbrev pub limit_error : Bytes → ℤ → ℤ → Err
limit_error provider limit retry_after = rate_limit_error record {
  provider = provider;
  retry_after = retry_after;
  reset_at = pos 0;
  limit = limit;
  remaining = pos 0;
  local_limit = false;
}

module _ (L : Limiters) where
  open L use {
    Limiter, new_limiter, allow, reserve, delay, cancel, default_rate, int_of_rate, ceil_seconds,
  }

  abbrev pub touch : ℤ → TimedLimiter L → TimedLimiter L
  touch now tl = record tl { last_used = now }

  abbrev pub with_limiter : Limiter → TimedLimiter L → TimedLimiter L
  with_limiter l tl = record tl { limiter = l }

  -- Reserve a token, read the delay, and give the token back: the bucket after it, and the seconds.
  unfoldable pub peek_delay : Moments → Limiter → Limiter × ℤ
  peek_delay m l =
      let (after, reservation) = reserve m.reserved_at l in
      let d = delay m.delayed_at reservation in
      (cancel m.cancelled_at reservation after, at_least_one (ceil_seconds d))

  -- A method of a shared bucket changed it: the entry that holds it, if there is one.
  abbrev pub put_limiter : Bytes → Limiter → Option (TimedLimiter L) → M L (Unit {0})
  put_limiter key l none = pure tt
  put_limiter key l (some tl) = store key (with_limiter l tl)

  abbrev pub update_limiter : Bytes → Limiter → M L (Unit {0})
  update_limiter key l = find key >>= put_limiter key l

  abbrev pub mark_exhausted : Bytes → Option (TimedLimiter L) → M L (Unit {0})
  mark_exhausted key none = pure tt
  mark_exhausted key (some tl) = store key (record tl { exhausted = true })

  -- The refusal: its delay is read from the bucket, which gets back the token.
  unfoldable pub refuse : Moments → Bytes → ℤ → Bytes → Limiter → M L (Option Err)
  unfolding peek_delay
  refuse m provider limit key l =
      let (l', seconds) = peek_delay m l in
      update_limiter key l' >> pure (some (limit_error provider limit seconds))

  abbrev pub create : LocalRateLimitConfig L → ℤ → TimedLimiter L
  create cfg now = record {
    limiter = new_limiter cfg.tokens_per_second cfg.burst_size;
    last_used = now;
    exhausted = false;
  }

  -- The second look of `getOrCreateLimiter`, under the write lock.
  abbrev pub second_look :
      LocalRateLimitConfig L → ℤ → Bytes → Option (TimedLimiter L) → M L Limiter
  second_look cfg now key none =
      store key (create cfg now) >> (w_unlock >> pure (create cfg now).limiter)
  second_look cfg now key (some tl) = store key (touch now tl) >> (w_unlock >> pure tl.limiter)

  -- The first look, under the read lock.
  abbrev pub first_look :
      (List (Bytes × TimedLimiter L) → List (Bytes × TimedLimiter L))
      → LocalRateLimitConfig L
      → ℤ
      → Bytes
      → Option (TimedLimiter L)
      → M L Limiter
  first_look others cfg now key none =
      r_unlock >> (meanwhile others >> (w_lock >> (find key >>= second_look cfg now key)))
  first_look others cfg now key (some tl) =
      store key (touch now tl) >> (r_unlock >> pure tl.limiter)

  unfoldable pub get_or_create_limiter :
      (List (Bytes × TimedLimiter L) → List (Bytes × TimedLimiter L))
      → LocalRateLimitConfig L
      → ℤ
      → Bytes
      → M L Limiter
  get_or_create_limiter others cfg now key = r_lock >> (find key >>= first_look others cfg now key)

  -- `checkLocalLimit` from `limiter.Allow()` on.
  unfoldable pub check_limiter :
      LocalRateLimitConfig L → Moments → Bytes → Limiter → M L (Option Err)
  unfolding refuse
  check_limiter cfg m key lim =
      let (l, granted) = allow m.asked lim in
      if granted
      then update_limiter key l >> pure none
      else (update_limiter key l
          >> (r_lock
              >> ((find key >>= mark_exhausted key)
                  >> (r_unlock
                      >> refuse m (bytes "local") (int_of_rate cfg.tokens_per_second) key l))))

  -- `checkLocalLimit`; `none` is no error.
  unfoldable pub check_local_limit :
      (List (Bytes × TimedLimiter L) → List (Bytes × TimedLimiter L))
      → LocalRateLimitConfig L
      → Moments
      → Bytes
      → M L (Option Err)
  unfolding get_or_create_limiter check_limiter
  check_local_limit others cfg m key =
      get_or_create_limiter others cfg m.touched key >>= check_limiter cfg m key

  -- A fallback bucket is asked: refused with an error, or granted and then `last` runs.
  abbrev pub ask_fallback : Moments → Bytes → Limiter → M L (Unit {0}) → M L (Option Err)
  ask_fallback m key lim last =
      let (l, granted) = allow m.asked lim in
      if granted
      then update_limiter key l >> (last >> pure none)
      else update_limiter key l >> refuse m (bytes "fallback") (pos 10) key l

  abbrev pub fallback_entry : ℤ → TimedLimiter L
  fallback_entry now = record {
    limiter = new_limiter default_rate (pos 10);
    last_used = now;
    exhausted = false;
  }

  -- The second look of `checkFallbackLimit`. Where it finds an entry it unlocks the mutex before the
  -- bucket is asked and, if the bucket grants a token, once more.
  abbrev pub second_fallback_look : Moments → Bytes → Option (TimedLimiter L) → M L (Option Err)
  second_fallback_look m key none =
      store key (fallback_entry m.touched)
      >> (w_unlock >> ask_fallback m key (fallback_entry m.touched).limiter (pure tt))
  second_fallback_look m key (some tl) =
      store key (touch m.touched tl) >> (w_unlock >> ask_fallback m key tl.limiter w_unlock)

  abbrev pub first_fallback_look :
      (List (Bytes × TimedLimiter L) → List (Bytes × TimedLimiter L))
      → Moments
      → Bytes
      → Option (TimedLimiter L)
      → M L (Option Err)
  first_fallback_look others m key none =
      r_unlock >> (meanwhile others >> (w_lock >> (find key >>= second_fallback_look m key)))
  first_fallback_look others m key (some tl) =
      store key (touch m.touched tl) >> (r_unlock >> ask_fallback m key tl.limiter (pure tt))

  -- `checkFallbackLimit`; `none` is no error.
  unfoldable pub check_fallback_limit :
      (List (Bytes × TimedLimiter L) → List (Bytes × TimedLimiter L))
      → Moments
      → Bytes
      → M L (Option Err)
  unfolding refuse
  check_fallback_limit others m key =
      let fallback_key = bytes "fallback:" ++ key in
      r_lock >> (find fallback_key >>= first_fallback_look others m fallback_key)
