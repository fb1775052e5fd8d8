-- ===== src/RateLimit/Requests.antt =====
-- internal/llm/ratelimit/middleware.go: a request's checks together return.
use go_judgy.Prelude.{
  ◌≡◌, ap, Bool, true, false, not, ◌&&◌, Option, none, some, [], ◌∷◌, if◌then◌else◌, arith,
}
use go_judgy.Prelude.Int.{is_zero_ℤ, ℤ, pos, int64, ltb_ℤ}
use go_judgy.Prelude.Bytes.{Bytes}
use go_judgy.Errors.Types.{Err}
use go_judgy.RateLimit.Limiter.{Limiters}
use go_judgy.RateLimit.Config.{RateLimitConfig}
use go_judgy.RateLimit.State.{unlocked, RateLimitState, M, ◌>>=◌, pure}
use go_judgy.RateLimit.Global.{
  ScriptReply, failed, values, no_list, integer, other_value, check_global_limit, read_reply,
  is_redis_error,
}
use go_judgy.RateLimit.Middleware.{
  Encounter, after_global, handle_global_limit, local_phase, global_phase, fallback_phase, unless,
  check_limits,
}
use go_judgy.RateLimit.Returns.{mutex_after, check_local_limit-returns}

module _ {L : Limiters} where
  -- A part that, begun while the mutex is free, returns and leaves it free.
  abbrev Returns : M L (Option Err) → Type 0
  Returns part =
      (s : RateLimitState L) → s.mutex ≡ unlocked → mutex_after L (part s) ≡ some unlocked

  pure-Returns : Returns (pure none)
  pure-Returns s free = ap some free

  if-Returns :
      (b : Bool) (p q : M L (Option Err)) → Returns p → Returns q → Returns (if b then p else q)
  if-Returns true p q hp hq = hp
  if-Returns false p q hp hq = hq

  if-returns :
      (b : Bool) (p q : Option (Option Err × RateLimitState L))
      → mutex_after L p ≡ some unlocked
      → mutex_after L q ≡ some unlocked
      → mutex_after L (if b then p else q) ≡ some unlocked
  if-returns true p q hp hq = hp
  if-returns false p q hp hq = hq

  skipped :
      (a b : Bool) (p q : Option (Option Err × RateLimitState L))
      → mutex_after L q ≡ some unlocked
      → mutex_after L (if a && (b && false) then p else q) ≡ some unlocked
  skipped true true p q h = h
  skipped true false p q h = h
  skipped false b p q h = h

  bind-Returns_go :
      (f : Option Err → M L (Option Err)) (o : Option (Option Err × RateLimitState L))
      → mutex_after L o ≡ some unlocked
      → ((e : Option Err) → Returns (f e))
      → mutex_after L (elim o [ none ↦ none | some (e, s') ↦ f e s' ]) ≡ some unlocked
  bind-Returns_go f none free rest = cc
  bind-Returns_go f (some (e, s')) free rest = rest e s' (ground (arith, free))

  bind-Returns :
      (part : M L (Option Err)) (f : Option Err → M L (Option Err))
      → Returns part
      → ((e : Option Err) → Returns (f e))
      → Returns (part >>= f)
  bind-Returns part f hp hf s free = bind-Returns_go f (part s) (hp s free) hf

  module _ (cfg : RateLimitConfig L) (has_client : Bool) (env : Encounter L) (key : Bytes) where
    read_reply-Returns : (limit : ℤ) (reply : ScriptReply) → Returns (read_reply limit reply)
    unfolding read_reply
    read_reply-Returns limit (failed e) = pure-Returns
    read_reply-Returns limit no_list = λ s free. ap some free
    read_reply-Returns limit (values []) = λ s free. ap some free
    read_reply-Returns limit (values (v ∷ [])) = λ s free. ap some free
    read_reply-Returns limit (values (other_value ∷ v ∷ vs)) = λ s free. ap some free
    read_reply-Returns limit (values (integer allowed ∷ v ∷ vs)) =
        if-Returns (is_zero_ℤ allowed) _ _ pure-Returns pure-Returns

    check_global_limit-Returns : Returns (check_global_limit cfg.global has_client env.reply)
    unfolding check_global_limit
    check_global_limit-Returns =
        if-Returns has_client _ _
          (if-Returns (ltb_ℤ (int64 cfg.global.requests_per_second) (pos 0)) _ _ pure-Returns (
            if-Returns (is_zero_ℤ (int64 cfg.global.requests_per_second)) _ _ pure-Returns
              (read_reply-Returns _ env.reply)))
          pure-Returns

    -- With local limiting on, no part asks a fallback bucket.
    after_global-Returns :
        cfg.local.enabled ≡ true
        → (e : Option Err) → Returns (after_global L cfg has_client env key e)
    after_global-Returns local_on none = pure-Returns
    after_global-Returns local_on (some e) =
        if-Returns (not (is_redis_error e)) _ _ pure-Returns (λ s free. rw local_on (ap some free))

    check_global-Returns :
        cfg.local.enabled ≡ true → Returns (handle_global_limit L cfg has_client env key)
    unfolding handle_global_limit
    check_global-Returns local_on =
        bind-Returns (check_global_limit cfg.global has_client env.reply)
          (after_global L cfg has_client env key) check_global_limit-Returns
          (after_global-Returns local_on)

    local_phase-Returns : Returns (local_phase L cfg has_client env key)
    local_phase-Returns =
        if-Returns cfg.local.enabled _ _
          (check_local_limit-returns L env.others cfg.local env.local key) pure-Returns

    global_phase-Returns :
        cfg.local.enabled ≡ true → Returns (global_phase L cfg has_client env key)
    global_phase-Returns local_on s free =
        if-returns (cfg.global.enabled && not s.degraded_mode) _ _
          (check_global-Returns local_on s free) (ap some free)

    fallback_phase-Returns :
        cfg.local.enabled ≡ true → Returns (fallback_phase L cfg has_client env key)
    fallback_phase-Returns local_on s free =
        rw local_on (skipped cfg.global.enabled s.degraded_mode _ _ (ap some free))

    unless-Returns :
        (e : Option Err) (next : M L (Option Err))
        → Returns next
        → Returns (unless L cfg has_client e next)
    unless-Returns none next h = h
    unless-Returns (some e) next h = pure-Returns

  -- With local limiting enabled, the checks of a request that are begun while the mutex is free
  -- return, with an error or without one, and the mutex is free again: whatever the configuration
  -- of the global limit, the answer of Redis, the clock and the other goroutines are.
  pub check_limits-returns :
      (cfg : RateLimitConfig L) (has_client : Bool) (env : Encounter L) (key : Bytes)
      (s : RateLimitState L)
      → cfg.local.enabled ≡ true
      → s.mutex ≡ unlocked
      → mutex_after L (check_limits L cfg has_client env key s) ≡ some unlocked
  unfolding check_limits
  check_limits-returns cfg has_client env key s local_on =
      bind-Returns (local_phase L cfg has_client env key) _
        (local_phase-Returns cfg has_client env key)
        (λ e. unless-Returns cfg has_client env key e _ (
          bind-Returns (global_phase L cfg has_client env key) _
            (global_phase-Returns cfg has_client env key local_on)
            (λ e'.
              unless-Returns cfg has_client env key e' _
                (fallback_phase-Returns cfg has_client env key local_on))))
        s
