-- ===== src/RateLimit/Refused.antt =====
-- internal/llm/ratelimit: the checks of a key whose exhausted bucket `CleanupStale` has found stale.
use go_judgy.Prelude.{
  ◌≡◌, ◌∙◌, refl, subst, Bool, true, false, Bool-cases, inl, inr, Option, none, some, is_some,
  if◌then◌else◌, arith,
}
use go_judgy.Prelude.Int.{ℤ, ltb_ℤ, ◌-ℤ◌}
use go_judgy.Prelude.Bytes.{Bytes, beq, beq_refl, lookup}
use go_judgy.Errors.Types.{Err}
use go_judgy.RateLimit.Limiter.{Limiters}
use go_judgy.RateLimit.Config.{LocalRateLimitConfig}
use go_judgy.RateLimit.State.{unlocked, reading, writing, TimedLimiter, RateLimitState, ◌>>=◌}
use go_judgy.RateLimit.Local.{
  Moments, check_local_limit, get_or_create_limiter, check_limiter, first_look, second_look, create,
  touch,
}
use go_judgy.RateLimit.Cleanup.{cleanup_stale, cleanup_entries}
use go_judgy.RateLimit.Exhausted.{
  NoBurst, Step, checks, cleans, Steps, done, then_steps, HasRetired, Retired, Kept,
  insert-HasRetired, found-Retired, absent-Retired, put_limiter-Kept, mark_exhausted-Kept,
  refuse-Kept, lookup-cleanup_entries, retired_entry,
}

module _ (L : Limiters) (cfg : LocalRateLimitConfig L) (N : NoBurst L cfg.tokens_per_second)
    (key : Bytes) where
  open N use {Empty, new-Empty, allow-Empty, denied}

  module _ (k : Bytes) (m : Moments) where
    check_limiter-Kept :
        (lim : L.Limiter) (s : RateLimitState L)
        → s.mutex ≡ unlocked
        → HasRetired L cfg N key s.local_limiters
        → (beq k key ≡ true → Empty lim)
        → Kept L cfg N key k (check_limiter L cfg m k lim s)
    unfolding check_limiter
    check_limiter-Kept lim s free h empty = elim (Bool-cases (L.allow m.asked lim).1) [
      | inl granted ↦ rw granted (
          put_limiter-Kept L cfg N key k (L.allow m.asked lim).0 s _ (lookup k s.local_limiters)
            refl h (λ same. allow-Empty m.asked lim (empty same))
            (λ entries kept.
              (free, (kept, λ same. ground (arith, granted, denied m.asked lim (empty same))))))
      | inr refused ↦ rw refused (
          put_limiter-Kept L cfg N key k (L.allow m.asked lim).0 s _ (lookup k s.local_limiters)
            refl h (λ same. allow-Empty m.asked lim (empty same))
            (λ entries kept. rw free (
              mark_exhausted-Kept L cfg N key k
                (record s { mutex = reading; local_limiters = entries }) _ (lookup k entries) refl
                kept
                (λ marked kept'.
                  refuse-Kept L cfg N key k m _ _ _ _ refl kept'
                    (λ same. allow-Empty m.asked lim (empty same))))))
    ]

    second_look-Kept :
        (s : RateLimitState L) (o : Option (TimedLimiter L))
        → o ≡ lookup k s.local_limiters
        → HasRetired L cfg N key s.local_limiters
        → Kept L cfg N key k (
            (second_look L cfg m.touched k o >>= check_limiter L cfg m k)
              (record s { mutex = writing }))
    second_look-Kept s none e h =
        let new_one = absent-Retired L cfg N key k (create L cfg m.touched) s.local_limiters h e in
        check_limiter-Kept _ _ refl
          (insert-HasRetired L cfg N key k (create L cfg m.touched) s.local_limiters h new_one)
          (λ same. (new_one same).1)
    second_look-Kept s (some tl) e h =
        let retired = found-Retired L cfg N key k tl s.local_limiters h e in
        check_limiter-Kept tl.limiter _ refl
          (insert-HasRetired L cfg N key k (touch L m.touched tl) s.local_limiters h retired)
          (λ same. (retired same).1)

    first_look-Kept :
        (s : RateLimitState L) (o : Option (TimedLimiter L))
        → o ≡ lookup k s.local_limiters
        → HasRetired L cfg N key s.local_limiters
        → Kept L cfg N key k (
            (first_look L (λ entries. entries) cfg m.touched k o >>= check_limiter L cfg m k)
              (record s { mutex = reading }))
    first_look-Kept s none e h = second_look-Kept s (lookup k s.local_limiters) refl h
    first_look-Kept s (some tl) e h =
        let retired = found-Retired L cfg N key k tl s.local_limiters h e in
        check_limiter-Kept tl.limiter _ refl
          (insert-HasRetired L cfg N key k (touch L m.touched tl) s.local_limiters h retired)
          (λ same. (retired same).1)

    check_local_limit-Kept :
        (s : RateLimitState L)
        → s.mutex ≡ unlocked
        → HasRetired L cfg N key s.local_limiters
        → Kept L cfg N key k (check_local_limit L (λ entries. entries) cfg m k s)
    unfolding check_local_limit get_or_create_limiter
    check_local_limit-Kept s free h = rw free (first_look-Kept s (lookup k s.local_limiters) refl h)

  -- The mutex is free, and the key has an exhausted bucket of a burst of 0.
  abbrev IsRetired : RateLimitState L → Type 0
  IsRetired s = (s.mutex ≡ unlocked) × HasRetired L cfg N key s.local_limiters

  entry-Retired :
      (b : Bool) (tl : TimedLimiter L)
      → Retired L cfg N key tl
      → Retired L cfg N key (if b then retired_entry L cfg tl else tl)
  entry-Retired true tl r = (refl, new-Empty)
  entry-Retired false tl r = r

  cleanup_stale-result :
      (min_ttl : ℤ) (m : Moments) (before : ℤ) (s s' : RateLimitState L)
      → s.mutex ≡ unlocked
      → cleanup_stale L cfg min_ttl m before s ≡ some (tt, s')
      → record s {
        mutex = unlocked;
        local_limiters = cleanup_entries L cfg m (before -ℤ min_ttl) s.local_limiters;
      }
        ≡ s'
  unfolding cleanup_stale
  cleanup_stale-result min_ttl m before s s' free run = ground (arith, rw free at run)

  cleanup_stale-IsRetired :
      (min_ttl : ℤ) (m : Moments) (before : ℤ) (s s' : RateLimitState L)
      → cleanup_stale L cfg min_ttl m before s ≡ some (tt, s')
      → IsRetired s
      → IsRetired s'
  cleanup_stale-IsRetired min_ttl m before s s' run (free, (tl, (e, r))) =
      subst IsRetired (cleanup_stale-result min_ttl m before s s' free run) (
        refl,
        (
          _,
          (
            lookup-cleanup_entries L cfg m (before -ℤ min_ttl) key s.local_limiters tl r.0 e,
            entry-Retired (ltb_ℤ tl.last_used (before -ℤ min_ttl)) tl r,
          ),
        ),
      )

  Kept-IsRetired :
      (k : Bytes) (answer : Option Err) (s' : RateLimitState L)
      (o : Option (Option Err × RateLimitState L))
      → o ≡ some (answer, s')
      → Kept L cfg N key k o
      → IsRetired s'
  Kept-IsRetired k answer s' none run h = cc
  Kept-IsRetired k answer s' (some (a, s)) run h =
      let same : s ≡ s' = ground (arith, run) in subst IsRetired same (h.0, h.1.0)

  Step-IsRetired : (s s' : RateLimitState L) → Step L cfg s s' → IsRetired s → IsRetired s'
  Step-IsRetired s s' (checks {answer = answer} m k run) h =
      Kept-IsRetired k answer s' _ run (check_local_limit-Kept k m s h.0 h.1)
  Step-IsRetired s s' (cleans min_ttl m before run) h =
      cleanup_stale-IsRetired min_ttl m before s s' run h

  Steps-IsRetired : (s s' : RateLimitState L) → Steps L cfg s s' → IsRetired s → IsRetired s'
  Steps-IsRetired s s' done h = h
  Steps-IsRetired s s' (then_steps {s' = s1} step steps) h =
      Steps-IsRetired s1 s' steps (Step-IsRetired s s1 step h)

  -- A check that returns an error.
  abbrev pub refuses : Option (Option Err × RateLimitState L) → Bool
  refuses none = false
  refuses (some (answer, s)) = is_some answer

  Kept-refuses :
      (o : Option (Option Err × RateLimitState L)) → Kept L cfg N key key o → refuses o ≡ true
  Kept-refuses none h = h
  Kept-refuses (some (answer, s)) h = h.1.1 (beq_refl key)

  -- A bucket is marked exhausted and is stale when `CleanupStale` runs. Then every check of its key
  -- is refused, after any sequence of checks and cleanups that follows, each run alone, in which
  -- the configured rate is such that a bucket of a burst of 0 grants no token.
  pub stale-refused :
      (tl : TimedLimiter L) (min_ttl : ℤ) (m m' : Moments) (before : ℤ) (s s1 s2 : RateLimitState L)
      → s.mutex ≡ unlocked
      → lookup key s.local_limiters ≡ some tl
      → tl.exhausted ≡ true
      → ltb_ℤ tl.last_used (before -ℤ min_ttl) ≡ true
      → cleanup_stale L cfg min_ttl m before s ≡ some (tt, s1)
      → Steps L cfg s1 s2
      → refuses (check_local_limit L (λ entries. entries) cfg m' key s2) ≡ true
  stale-refused tl min_ttl m m' before s s1 s2 free e x stale run steps =
      let found : lookup key (cleanup_entries L cfg m (before -ℤ min_ttl) s.local_limiters)
          ≡ some (retired_entry L cfg tl) =
        lookup-cleanup_entries L cfg m (before -ℤ min_ttl) key s.local_limiters tl x e
        ∙ rw stale refl in
      let start : IsRetired s1 =
        subst IsRetired (cleanup_stale-result min_ttl m before s s1 free run)
          (refl, (retired_entry L cfg tl, (found, (refl, new-Empty)))) in
      let end : IsRetired s2 = Steps-IsRetired s1 s2 steps start in
      Kept-refuses _ (check_local_limit-Kept key m' s2 end.0 end.1)
