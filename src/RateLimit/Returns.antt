-- ===== src/RateLimit/Returns.antt =====
-- internal/llm/ratelimit/local_limiter.go and fallback_limiter.go: which checks return, with the mutex
-- free again.
use go_judgy.Prelude.{
  ◌≡◌, refl, Bool, false, Bool-cases, inl, inr, Option, none, some, List, ◌++◌, if◌then◌else◌,
}
use go_judgy.Prelude.Int.{ℤ}
use go_judgy.Prelude.Bytes.{Bytes, bytes, lookup}
use go_judgy.Errors.Types.{Err}
use go_judgy.RateLimit.Limiter.{Limiters}
use go_judgy.RateLimit.Config.{LocalRateLimitConfig}
use go_judgy.RateLimit.State.{
  Mutex, unlocked, reading, writing, TimedLimiter, RateLimitState, M, ◌>>=◌, ◌>>◌, pure, w_unlock,
}
use go_judgy.RateLimit.Local.{
  Moments, first_look, second_look, ask_fallback, fallback_entry, first_fallback_look, refuse,
  peek_delay, put_limiter, mark_exhausted, check_limiter, check_local_limit, get_or_create_limiter,
  check_fallback_limit,
}

module _ (L : Limiters) where
  open L use {Limiter, allow}

  -- The mutex at the end of a step, unless the step ends the program.
  abbrev pub mutex_after : Option (Option Err × RateLimitState L) → Option Mutex
  mutex_after none = none
  mutex_after (some (e, s)) = some s.mutex

  -- A bucket is written back to an entry, and the rest finds the same mutex.
  put_limiter-then :
      (key : Bytes) (l : Limiter) (s : RateLimitState L) (rest : M L (Option Err))
      (x : Option Mutex) (o : Option (TimedLimiter L))
      → ((entries : List (Bytes × TimedLimiter L))
          → mutex_after (rest (record s { local_limiters = entries })) ≡ x)
      → mutex_after ((put_limiter L key l o >> rest) s) ≡ x
  put_limiter-then key l s rest x none h = h s.local_limiters
  put_limiter-then key l s rest x (some tl) h = h _

  mark_exhausted-then :
      (key : Bytes) (s : RateLimitState L) (rest : M L (Option Err)) (x : Option Mutex)
      (o : Option (TimedLimiter L))
      → ((entries : List (Bytes × TimedLimiter L))
          → mutex_after (rest (record s { local_limiters = entries })) ≡ x)
      → mutex_after ((mark_exhausted L key o >> rest) s) ≡ x
  mark_exhausted-then key s rest x none h = h s.local_limiters
  mark_exhausted-then key s rest x (some tl) h = h _

  refuse-returns :
      (m : Moments) (provider : Bytes) (limit : ℤ) (key : Bytes) (l : Limiter)
      (s : RateLimitState L)
      → mutex_after (refuse L m provider limit key l s) ≡ some s.mutex
  unfolding refuse peek_delay
  refuse-returns m provider limit key l s =
      put_limiter-then key (peek_delay L m l).0 s _ (some s.mutex) (lookup key s.local_limiters)
        (λ entries. refl)

  check_limiter-returns :
      (cfg : LocalRateLimitConfig L) (m : Moments) (key : Bytes) (lim : Limiter)
      (s : RateLimitState L)
      → s.mutex ≡ unlocked
      → mutex_after (check_limiter L cfg m key lim s) ≡ some unlocked
  unfolding check_limiter
  check_limiter-returns cfg m key lim s free = elim (Bool-cases (allow m.asked lim).1) [
    | inl granted ↦ rw granted (
        put_limiter-then key (allow m.asked lim).0 s _ (some unlocked) (lookup key s.local_limiters)
          (λ entries. rw free refl))
    | inr denied ↦ rw denied (
        put_limiter-then key (allow m.asked lim).0 s _ (some unlocked) (lookup key s.local_limiters)
          (λ entries. rw free (
            mark_exhausted-then key (record s { mutex = reading; local_limiters = entries }) _
              (some unlocked) (lookup key entries)
              (λ marked. refuse-returns m _ _ key (allow m.asked lim).0 _))))
  ]

  module _ (cfg : LocalRateLimitConfig L) (m : Moments) (key : Bytes) where
    second_look-returns :
        (s : RateLimitState L) (o : Option (TimedLimiter L))
        → mutex_after (
            (second_look L cfg m.touched key o >>= check_limiter L cfg m key)
              (record s { mutex = writing }))
          ≡ some unlocked
    second_look-returns s none = check_limiter-returns cfg m key _ _ refl
    second_look-returns s (some tl) = check_limiter-returns cfg m key _ _ refl

    first_look-returns :
        (others : List (Bytes × TimedLimiter L) → List (Bytes × TimedLimiter L))
        (s : RateLimitState L) (o : Option (TimedLimiter L))
        → mutex_after (
            (first_look L others cfg m.touched key o >>= check_limiter L cfg m key)
              (record s { mutex = reading }))
          ≡ some unlocked
    first_look-returns others s none =
        second_look-returns (record s { local_limiters = others s.local_limiters })
          (lookup key (others s.local_limiters))
    first_look-returns others s (some tl) = check_limiter-returns cfg m key _ _ refl

  -- A local check that is begun while the mutex is free always returns, with an error or without
  -- one, whatever other goroutines do to the map between its looks, and the mutex is free again.
  pub check_local_limit-returns :
      (others : List (Bytes × TimedLimiter L) → List (Bytes × TimedLimiter L))
      (cfg : LocalRateLimitConfig L) (m : Moments) (key : Bytes) (s : RateLimitState L)
      → s.mutex ≡ unlocked
      → mutex_after (check_local_limit L others cfg m key s) ≡ some unlocked
  unfolding check_local_limit get_or_create_limiter
  check_local_limit-returns others cfg m key s free =
      rw free (first_look-returns cfg m key others s (lookup key s.local_limiters))

  module _ (m : Moments) (key : Bytes) where
    ask_fallback-returns :
        (lim : Limiter) (s : RateLimitState L)
        → s.mutex ≡ unlocked
        → mutex_after (ask_fallback L m key lim (pure tt) s) ≡ some unlocked
    ask_fallback-returns lim s free = elim (Bool-cases (allow m.asked lim).1) [
      | inl granted ↦ rw granted (
          put_limiter-then key (allow m.asked lim).0 s _ (some unlocked)
            (lookup key s.local_limiters) (λ entries. rw free refl))
      | inr denied ↦ rw denied (
          put_limiter-then key (allow m.asked lim).0 s _ (some unlocked)
            (lookup key s.local_limiters)
            (λ entries. rw free (refuse-returns m _ _ key (allow m.asked lim).0 _)))
    ]

    -- With the second unlock, the granted token ends the program.
    ask_unlocking :
        (lim : Limiter) (s : RateLimitState L)
        → s.mutex ≡ unlocked
        → mutex_after (ask_fallback L m key lim w_unlock s)
          ≡ (if (allow m.asked lim).1 then none else some unlocked)
    ask_unlocking lim s free = elim (Bool-cases (allow m.asked lim).1) [
      | inl granted ↦ rw granted (
          put_limiter-then key (allow m.asked lim).0 s _ none (lookup key s.local_limiters)
            (λ entries. rw free refl))
      | inr denied ↦ rw denied (
          put_limiter-then key (allow m.asked lim).0 s _ (some unlocked)
            (lookup key s.local_limiters)
            (λ entries. rw free (refuse-returns m _ _ key (allow m.asked lim).0 _)))
    ]

    -- Another goroutine created the bucket between the looks, and it grants a token.
    abbrev pub lost_race : Option (TimedLimiter L) → Option (TimedLimiter L) → Bool
    lost_race none (some tl) = (allow m.asked tl.limiter).1
    lost_race none none = false
    lost_race (some tl) o = false

    fallback_look-returns :
        (others : List (Bytes × TimedLimiter L) → List (Bytes × TimedLimiter L))
        (s : RateLimitState L) (o o' : Option (TimedLimiter L))
        → o' ≡ lookup key (others s.local_limiters)
        → mutex_after (first_fallback_look L others m key o (record s { mutex = reading }))
          ≡ (if lost_race o o' then none else some unlocked)
    fallback_look-returns others s (some tl) o' e = ask_fallback-returns tl.limiter _ refl
    fallback_look-returns others s none none e =
        rw⁻¹ e (ask_fallback-returns (fallback_entry L m.touched).limiter _ refl)
    fallback_look-returns others s none (some tl) e = rw⁻¹ e (ask_unlocking tl.limiter _ refl)

  -- A fallback check that is begun while the mutex is free returns, and frees the mutex, unless it
  -- finds no bucket at its first look and at its second one a bucket that grants a token: that
  -- run ends the program, by a second unlock.
  pub check_fallback_limit-returns :
      (others : List (Bytes × TimedLimiter L) → List (Bytes × TimedLimiter L)) (m : Moments)
      (key : Bytes) (s : RateLimitState L)
      → s.mutex ≡ unlocked
      → mutex_after (check_fallback_limit L others m key s) ≡ (
          if lost_race m key
            (lookup (bytes "fallback:" ++ key) s.local_limiters)
            (lookup (bytes "fallback:" ++ key) (others s.local_limiters))
          then none
          else some unlocked)
  unfolding check_fallback_limit
  check_fallback_limit-returns others m key s free =
      rw free (fallback_look-returns m (bytes "fallback:" ++ key) others s _ _ refl)
