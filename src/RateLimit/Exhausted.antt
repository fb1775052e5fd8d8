-- ===== src/RateLimit/Exhausted.antt =====
-- internal/llm/ratelimit/middleware.go: what becomes of an exhausted bucket that has gone stale.
use go_judgy.Prelude.{
  ◌≡◌, ◌∙◌, refl, sym, ap, subst, Bool, true, false, ◌&&◌, Bool-cases, inl, inr, Option, none, some,
  is_some, List, [], ◌∷◌, if◌then◌else◌, arith,
}
use go_judgy.Prelude.Int.{ℤ, pos, ltb_ℤ}
use go_judgy.Prelude.Bytes.{
  Bytes, beq, beq→eq, lookup, insert, lookup-insert_self, lookup-insert_ne,
}
use go_judgy.Errors.Types.{Err}
use go_judgy.RateLimit.Limiter.{Limiters}
use go_judgy.RateLimit.Config.{LocalRateLimitConfig}
use go_judgy.RateLimit.State.{unlocked, TimedLimiter, RateLimitState, M, ◌>>◌}
use go_judgy.RateLimit.Local.{
  Moments, check_local_limit, put_limiter, mark_exhausted, refuse, peek_delay,
}
use go_judgy.RateLimit.Cleanup.{retire, keep, cleanup_entries, cleanup_stale}

-- Buckets of a burst of 0, at a rate that is not infinite: they never grant a token.
pub record NoBurst (L : Limiters) (rate : L.Rate) : Type 1 where
  pub Empty : L.Limiter → Type 0
  pub new-Empty : Empty (L.new_limiter rate (pos 0))
  pub allow-Empty : (t : ℤ) (l : L.Limiter) → Empty l → Empty (L.allow t l).0
  pub reserve-Empty : (t : ℤ) (l : L.Limiter) → Empty l → Empty (L.reserve t l).0
  pub cancel-Empty : (t : ℤ) (r : L.Reservation) (l : L.Limiter) → Empty l → Empty (L.cancel t r l)
  pub denied : (t : ℤ) (l : L.Limiter) → Empty l → (L.allow t l).1 ≡ false

if-and-false {ℓ} : {A : Type ℓ} (b : Bool) (x y : A) → (if b && false then x else y) ≡ y
if-and-false true x y = refl
if-and-false false x y = refl

module _ (L : Limiters) (cfg : LocalRateLimitConfig L) where
  -- One check of a key, or one cleanup, that runs alone.
  pub data Step : RateLimitState L → RateLimitState L → Type 0 where
    checks :
        {s s' : RateLimitState L} {answer : Option Err} (m : Moments) (key : Bytes)
        → check_local_limit L (λ entries. entries) cfg m key s ≡ some (answer, s')
        → Step s s'
    cleans :
        {s s' : RateLimitState L} (min_ttl : ℤ) (m : Moments) (before : ℤ)
        → cleanup_stale L cfg min_ttl m before s ≡ some (tt, s')
        → Step s s'

  pub data Steps : RateLimitState L → RateLimitState L → Type 0 where
    done : {s : RateLimitState L} → Steps s s
    then_steps : {s s' s'' : RateLimitState L} → Step s s' → Steps s' s'' → Steps s s''

  -- The entry that a stale one becomes.
  abbrev pub retired_entry : TimedLimiter L → TimedLimiter L
  retired_entry tl = record {
    limiter = L.new_limiter cfg.tokens_per_second (pos 0);
    last_used = tl.last_used;
    exhausted = true;
  }

  retire-exhausted :
      (m : Moments) (tl : TimedLimiter L)
      → tl.exhausted ≡ true
      → retire L cfg m tl ≡ some (retired_entry tl)
  unfolding retire
  retire-exhausted m tl e = rw e (if-and-false _ _ _)

  lookup-keep :
      (key k : Bytes) (o : Option (TimedLimiter L)) (rest : List (Bytes × TimedLimiter L))
      → beq k key ≡ false
      → lookup key (keep L k o rest) ≡ lookup key rest
  lookup-keep key k none rest e = refl
  lookup-keep key k (some tl) rest e = rw e refl

  lookup-cleanup_head :
      (m : Moments) (cutoff : ℤ) (key k : Bytes) (entries : List (Bytes × TimedLimiter L))
      (tl : TimedLimiter L)
      → tl.exhausted ≡ true
      → beq k key ≡ true
      → lookup key (cleanup_entries L cfg m cutoff ((k, tl) ∷ entries))
        ≡ some (if ltb_ℤ tl.last_used cutoff then retired_entry tl else tl)
  unfolding cleanup_entries
  lookup-cleanup_head m cutoff key k entries tl x same =
      elim (Bool-cases (ltb_ℤ tl.last_used cutoff)) [
        | inl stale ↦ rw (stale, retire-exhausted m tl x, same) refl
        | inr fresh ↦ rw (fresh, same) refl
      ]

  pub lookup-cleanup_entries :
      (m : Moments) (cutoff : ℤ) (key : Bytes) (entries : List (Bytes × TimedLimiter L))
      (tl : TimedLimiter L)
      → tl.exhausted ≡ true
      → lookup key entries ≡ some tl
      → lookup key (cleanup_entries L cfg m cutoff entries)
        ≡ some (if ltb_ℤ tl.last_used cutoff then retired_entry tl else tl)
  unfolding cleanup_entries
  lookup-cleanup_entries m cutoff key [] tl x e = cc
  lookup-cleanup_entries m cutoff key ((k, t) ∷ entries) tl x e = elim (Bool-cases (beq k key)) [
    | inl same ↦
        let head : t ≡ tl = ground (arith, rw same at e) in
        subst
          (λ z.
            lookup key (cleanup_entries L cfg m cutoff ((k, t) ∷ entries))
            ≡ some (if ltb_ℤ z.last_used cutoff then retired_entry z else z))
          head (lookup-cleanup_head m cutoff key k entries t (ap (λ z. z.exhausted) head ∙ x) same)
    | inr other ↦ elim (Bool-cases (ltb_ℤ t.last_used cutoff)) [
      | inl stale ↦
          rw (stale, lookup-keep key k (retire L cfg m t) _ other)
            (lookup-cleanup_entries m cutoff key entries tl x (rw other at e))
      | inr fresh ↦
          rw (fresh, other) (lookup-cleanup_entries m cutoff key entries tl x (rw other at e))
    ]
  ]

  module _ (N : NoBurst L cfg.tokens_per_second) (key : Bytes) where
    open N use {Empty, new-Empty, allow-Empty, reserve-Empty, cancel-Empty, denied}

    -- The entry is exhausted, its bucket is of a burst of 0.
    abbrev pub Retired : TimedLimiter L → Type 0
    Retired tl = (tl.exhausted ≡ true) × Empty tl.limiter

    abbrev pub HasRetired : List (Bytes × TimedLimiter L) → Type 0
    HasRetired entries = (tl : TimedLimiter L) × ((lookup key entries ≡ some tl) × Retired tl)

    -- The key that is stored is this one only if what is stored is retired.
    pub insert-HasRetired :
        (k : Bytes) (tl : TimedLimiter L) (entries : List (Bytes × TimedLimiter L))
        → HasRetired entries
        → (beq k key ≡ true → Retired tl)
        → HasRetired (insert k tl entries)
    insert-HasRetired k tl entries (t, (e, r)) h = elim (Bool-cases (beq k key)) [
      | inl same ↦ (tl, (rw (beq→eq k key same) (lookup-insert_self key tl entries), h same))
      | inr other ↦ (t, (lookup-insert_ne key k tl entries other ∙ e, r))
    ]

    pub found-Retired :
        (k : Bytes) (tl : TimedLimiter L) (entries : List (Bytes × TimedLimiter L))
        → HasRetired entries
        → some tl ≡ lookup k entries
        → beq k key ≡ true
        → Retired tl
    found-Retired k tl entries (t, (e, r)) found same =
        let here : some t ≡ some tl = sym e ∙ sym (found ∙ rw (beq→eq k key same) refl) in
        let eq : t ≡ tl = ground (arith, here) in subst Retired eq r

    -- The key that is not found is another one.
    pub absent-Retired :
        (k : Bytes) (tl : TimedLimiter L) (entries : List (Bytes × TimedLimiter L))
        → HasRetired entries
        → none ≡ lookup k entries
        → beq k key ≡ true
        → Retired tl
    absent-Retired k tl entries (t, (e, r)) absent same =
        let clash : none ≡ some t = absent ∙ (rw (beq→eq k key same) refl ∙ e) in cc

    module _ (k : Bytes) where
      -- At the end of a check of k, which is reached.
      abbrev pub Kept : Option (Option Err × RateLimitState L) → Type 0
      Kept none = false ≡ true
      Kept (some (answer, s)) =
          (s.mutex ≡ unlocked)
          × (HasRetired s.local_limiters × (beq k key ≡ true → is_some answer ≡ true))

      pub put_limiter-Kept :
          (l : L.Limiter) (s : RateLimitState L) (rest : M L (Option Err))
          (o : Option (TimedLimiter L))
          → o ≡ lookup k s.local_limiters
          → HasRetired s.local_limiters
          → (beq k key ≡ true → Empty l)
          → ((entries : List (Bytes × TimedLimiter L))
              → HasRetired entries
              → Kept (rest (record s { local_limiters = entries })))
          → Kept ((put_limiter L k l o >> rest) s)
      put_limiter-Kept l s rest none e h empty next = next s.local_limiters h
      put_limiter-Kept l s rest (some tl) e h empty next = next _ (
          insert-HasRetired k _ s.local_limiters h
            (λ same. ((found-Retired k tl s.local_limiters h e same).0, empty same)))

      pub mark_exhausted-Kept :
          (s : RateLimitState L) (rest : M L (Option Err)) (o : Option (TimedLimiter L))
          → o ≡ lookup k s.local_limiters
          → HasRetired s.local_limiters
          → ((entries : List (Bytes × TimedLimiter L))
              → HasRetired entries
              → Kept (rest (record s { local_limiters = entries })))
          → Kept ((mark_exhausted L k o >> rest) s)
      mark_exhausted-Kept s rest none e h next = next s.local_limiters h
      mark_exhausted-Kept s rest (some tl) e h next = next _ (
          insert-HasRetired k _ s.local_limiters h
            (λ same. (refl, (found-Retired k tl s.local_limiters h e same).1)))

      pub refuse-Kept :
          (m : Moments) (provider : Bytes) (limit : ℤ) (l : L.Limiter) (s : RateLimitState L)
          → s.mutex ≡ unlocked
          → HasRetired s.local_limiters
          → (beq k key ≡ true → Empty l)
          → Kept (refuse L m provider limit k l s)
      unfolding refuse peek_delay
      refuse-Kept m provider limit l s free h empty =
          put_limiter-Kept _ s _ (lookup k s.local_limiters) refl h
            (λ same. cancel-Empty _ _ _ (reserve-Empty _ l (empty same)))
            (λ entries kept. (free, (kept, λ same. refl)))
