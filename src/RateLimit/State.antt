-- ===== src/RateLimit/State.antt =====
-- internal/llm/ratelimit/middleware.go: the state of the middleware, and its mutex. A locked section
-- is a step of a small monad in which `none` is the end of the program: `Unlock` of a mutex that is
-- not locked is a fatal error in Go. Another goroutine waits while the mutex is held, so a lock is
-- taken when it is free.
use go_judgy.Prelude.{Bool, Option, none, some, List}
use go_judgy.Prelude.Int.{ℤ}
use go_judgy.Prelude.Bytes.{Bytes, lookup, insert}
use go_judgy.RateLimit.Limiter.{Limiters}

pub data Mutex : Type 0 where
  unlocked reading writing : Mutex

module _ (L : Limiters) where
  open L use {Limiter}

  pub record TimedLimiter : Type 0 where
    pub limiter : Limiter
    pub last_used : ℤ
    pub exhausted : Bool

  pub record RateLimitState : Type 0 where
    pub mutex : Mutex
    pub local_limiters : List (Bytes × TimedLimiter)
    pub degraded_mode : Bool

  abbrev pub M : Type 0 → Type 0
  M A = RateLimitState → Option (A × RateLimitState)

module _ {L : Limiters} where
  infixl 5 ◌>>=◌ ◌>>◌
  abbrev pub ◌>>=◌ : {A B : Type 0} → M L A → (A → M L B) → M L B
  ◌>>=◌ m f s = elim (m s) [ none ↦ none | some (a, s') ↦ f a s' ]

  abbrev pub ◌>>◌ : {B : Type 0} → M L (Unit {0}) → M L B → M L B
  m >> k = m >>= λ _. k

  abbrev pub pure : {A : Type 0} → A → M L A
  pure a s = some (a, s)

  abbrev set_mutex : Mutex → M L (Unit {0})
  set_mutex m s = some (tt, record s { mutex = m })

  -- A locked mutex would be waited for in vain.
  abbrev pub r_lock : M L (Unit {0})
  r_lock s = elim s.mutex [ unlocked ↦ set_mutex reading s | reading ↦ none | writing ↦ none ]

  abbrev pub w_lock : M L (Unit {0})
  w_lock s = elim s.mutex [ unlocked ↦ set_mutex writing s | reading ↦ none | writing ↦ none ]

  abbrev pub r_unlock : M L (Unit {0})
  r_unlock s = elim s.mutex [ reading ↦ set_mutex unlocked s | unlocked ↦ none | writing ↦ none ]

  abbrev pub w_unlock : M L (Unit {0})
  w_unlock s = elim s.mutex [ writing ↦ set_mutex unlocked s | unlocked ↦ none | reading ↦ none ]

  -- `r.localLimiters[key]`.
  abbrev pub find : Bytes → M L (Option (TimedLimiter L))
  find key s = some (lookup key s.local_limiters, s)

  abbrev pub store : Bytes → TimedLimiter L → M L (Unit {0})
  store key tl s = some (tt, record s { local_limiters = insert key tl s.local_limiters })

  -- What other goroutines do to the map while the mutex is free.
  abbrev pub meanwhile :
      (List (Bytes × TimedLimiter L) → List (Bytes × TimedLimiter L)) → M L (Unit {0})
  meanwhile change s = some (tt, record s { local_limiters = change s.local_limiters })
