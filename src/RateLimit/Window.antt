-- ===== src/RateLimit/Window.antt =====
-- internal/llm/ratelimit/global_limiter.go: the Lua script of the fixed window, over the commands of
-- Redis that it calls.
use go_judgy.Prelude.{ℕ, suc, ◌+◌, ◌≡◌, Bool, true, false, Option, none, some, ltb, if◌then◌else◌}
use go_judgy.Prelude.Int.{ℤ, pos, negsuc, ◌-ℤ◌}
use go_judgy.Prelude.Bytes.{Bytes}

-- The commands, and what their documentation says of a counter that does not expire meanwhile: a
-- value that was set is read, `INCR` adds one and returns the sum, `PEXPIRE` keeps the value.
pub record Redis : Type 1 where
  pub Store : Type 0
  pub get : Bytes → Store → Option ℕ
  pub set_px : Bytes → ℕ → ℕ → Store → Store
  pub incr : Bytes → Store → Store × ℕ
  pub pttl : Bytes → Store → ℤ
  pub pexpire : Bytes → ℕ → Store → Store
  pub get-set_px : (k : Bytes) (n w : ℕ) (s : Store) → get k (set_px k n w s) ≡ some n
  pub incr-sum : (k : Bytes) (s : Store) (n : ℕ) → get k s ≡ some n → (incr k s).1 ≡ suc n
  pub get-incr :
      (k : Bytes) (s : Store) (n : ℕ) → get k s ≡ some n → get k (incr k s).0 ≡ some (suc n)
  pub get-pexpire : (k : Bytes) (w : ℕ) (s : Store) → get k (pexpire k w s) ≡ get k s

abbrev pub is_no_expiry : ℤ → Bool
is_no_expiry (negsuc n) = elim n [ ℕ.zero ↦ true | suc m ↦ false ]
is_no_expiry (pos n) = false

module _ (R : Redis) where
  open R use {Store, get, set_px, incr, pttl, pexpire}

  -- The script from the value of `GET` on: the store after it, and the pair that it returns.
  unfoldable pub script_on : Bytes → ℕ → ℕ → Store → Option ℕ → Store × (ℕ × ℤ)
  script_on key window limit s none = (set_px key 1 window s, (1, pos limit -ℤ pos 1))
  script_on key window limit s (some count) =
      if ltb count limit
      then (let (s', new_count) = incr key s in
          (
            (if is_no_expiry (pttl key s') then pexpire key window s' else s'),
            (1, pos limit -ℤ pos new_count),
          ))
      else (s, (0, pttl key s))

  unfoldable pub script : Bytes → ℕ → ℕ → Store → Store × (ℕ × ℤ)
  unfolding script_on
  script key window limit s = script_on key window limit s (get key s)

  -- The number of requests that n runs of the script allow.
  unfoldable pub allowed_in : Bytes → ℕ → ℕ → ℕ → Store → ℕ
  allowed_in key window limit ℕ.zero s = 0
  allowed_in key window limit (suc n) s =
      let (s', (allowed, rest)) = script key window limit s in
      allowed + allowed_in key window limit n s'
