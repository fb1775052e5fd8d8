-- ===== src/RateLimit/WindowLaws.antt =====
-- internal/llm/ratelimit/global_limiter.go: how many requests one window lets through.
use go_judgy.Prelude.{
  ℕ, zero, suc, ◌-◌, ◌≤◌, ◌<◌, ◌≡◌, ◌∙◌, refl, true, false, Bool-cases, inl, inr, none, some, ltb,
  if◌then◌else◌, arith,
}
use go_judgy.Prelude.Bytes.{Bytes}
use go_judgy.RateLimit.Window.{Redis, is_no_expiry, script_on, script, allowed_in}

-- The smaller of two numbers.
abbrev pub least : ℕ → ℕ → ℕ
least a b = if ltb a b then a else b

module _ (R : Redis) where
  open R use {Store, get, set_px, incr, pttl, pexpire, get-set_px, incr-sum, get-incr, get-pexpire}

  script-full :
      (key : Bytes) (window limit : ℕ) (s : Store) (count : ℕ)
      → get key s ≡ some count
      → limit ≤ count
      → ((script R key window limit s).0 ≡ s) × ((script R key window limit s).1.0 ≡ 0)
  unfolding script script_on
  script-full key window limit s count e full =
      let no_room : ltb count limit ≡ false = ground (arith, full) in
      rw (e, script_on, no_room) (refl, refl)

  counted_after :
      (key : Bytes) (window : ℕ) (s : Store) (count : ℕ)
      → get key s ≡ some count
      → get key (
          if is_no_expiry (pttl key (incr key s).0)
          then pexpire key window (incr key s).0
          else (incr key s).0)
        ≡ some (suc count)
  counted_after key window s count e = elim (Bool-cases (is_no_expiry (pttl key (incr key s).0))) [
    | inl lost ↦ rw lost (get-pexpire key window (incr key s).0 ∙ get-incr key s count e)
    | inr kept ↦ rw kept (get-incr key s count e)
  ]

  script-room :
      (key : Bytes) (window limit : ℕ) (s : Store) (count : ℕ)
      → get key s ≡ some count
      → count < limit
      → (get key (script R key window limit s).0 ≡ some (suc count))
        × ((script R key window limit s).1.0 ≡ 1)
  unfolding script script_on
  script-room key window limit s count e room =
      let some_room : ltb count limit ≡ true = ground (arith, room) in
      rw (e, script_on, some_room) (counted_after key window s count e, refl)

  allowed_in-counted :
      (key : Bytes) (window limit n : ℕ) (s : Store) (count : ℕ)
      → get key s ≡ some count
      → allowed_in R key window limit n s ≡ least n (limit - count)
  unfolding allowed_in
  allowed_in-counted key window limit zero s count e = ground arith
  allowed_in-counted key window limit (suc n) s count e = elim (Bool-cases (ltb count limit)) [
    | inl room ↦
        let after = script-room key window limit s count e (ground (arith, room)) in
        rw (after.1, allowed_in-counted key window limit n _ (suc count) after.0)
          (ground (arith, room))
    | inr full ↦
        let after = script-full key window limit s count e (ground (arith, full)) in
        rw (after.1, after.0, allowed_in-counted key window limit n s count e)
          (ground (arith, full))
  ]

  -- From a window whose counter does not exist yet, n runs of the script that all come before it
  -- expires allow n requests, but never more than a positive limit.
  pub allowed_in-fresh :
      (key : Bytes) (window limit n : ℕ) (s : Store)
      → 0 < limit
      → get key s ≡ none
      → allowed_in R key window limit n s ≡ least n limit
  unfolding allowed_in script script_on
  allowed_in-fresh key window limit zero s positive e = ground (arith, positive)
  allowed_in-fresh key window limit (suc n) s positive e =
      rw (e, script_on, allowed_in-counted key window limit n _ 1 (get-set_px key 1 window s))
        (ground (arith, positive))
