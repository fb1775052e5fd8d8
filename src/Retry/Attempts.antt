-- ===== src/Retry/Attempts.antt =====
-- internal/llm/retry/middleware.go: how often the retry middleware calls the handler below it.
use go_judgy.Prelude.{
  ℕ, zero, suc, ◌+◌, ◌≤◌, ◌≡◌, ◌⊎◌, inl, inr, refl, subst, ◌∙◌, Bool, true, false, Bool-cases, ◌&&◌,
  Option, none, some, arith,
}
use go_judgy.Prelude.Int.{ℤ, pos, pos_part, ◌<ℤ◌, ltb_ℤ}
use go_judgy.Prelude.Bytes.{Bytes}
use go_judgy.Errors.Types.{Err}
use go_judgy.Transport.{Request, Response, Context, Reply, Handler}
use go_judgy.Floats.{Floats}
use go_judgy.Retry.Config.{RetryConfig}
use go_judgy.Retry.Classify.{should_retry}
use go_judgy.Retry.Stats.{RetryStats, exceeds_budget}
use go_judgy.Retry.Loop.{
  Round, LoopState, Ended, returned, broke, again, track_response, after_handle, finish,
  max_attempts_in, wait_or_cancel, after_failure, after_call, attempt_once, run_attempts, start,
  handle, is_zero,
}

-- A handler that also counts its calls.
unfoldable pub counted : {W : Type 0} → Handler W → Handler (W × ℕ)
counted next ctx req (w, n) = let called = next ctx req w in ((called.0, n + 1), called.1)

pub max_attempts_in-le :
    (ctx : Context) (m : ℤ) → pos 0 <ℤ m → pos_part (max_attempts_in ctx m) ≤ pos_part m
max_attempts_in-le ctx m positive = ground (arith, positive)

module _ {W : Type 0} where
  -- The world when a round ends.
  abbrev pub world_of : Ended W → W
  world_of (returned st w reply) = w
  world_of (broke s) = s.world
  world_of (again s) = s.world

  pub Ended-cases :
      (x : Ended W)
      → ((st : RetryStats) × (w : W) × (reply : Reply) × (x ≡ returned st w reply))
        ⊎ (((s : LoopState W) × (x ≡ broke s)) ⊎ ((s : LoopState W) × (x ≡ again s)))
  Ended-cases (returned st w reply) = inl (st, w, reply, refl)
  Ended-cases (broke s) = inr (inl (s, refl))
  Ended-cases (again s) = inr (inr (s, refl))

  pub world-after_handle :
      (w : W) (resp : Option Response) (s : LoopState W) → (after_handle w resp s).world ≡ w
  unfolding after_handle track_response
  world-after_handle w none s = refl
  world-after_handle w (some resp) s = ground arith

  pub world-finish : (total : ℤ) (s : LoopState W) → (finish total s).0.1 ≡ s.world
  unfolding finish
  world-finish total s = ground arith

module _ (F : Floats) (cfg : RetryConfig F) (parse_text : Bytes → ℤ) {W : Type 0} where
  world-wait_or_cancel :
      (env : Round) (s : LoopState W) (wait : Option ℤ)
      → world_of (wait_or_cancel F cfg parse_text env s wait) ≡ s.world
  world-wait_or_cancel env s wait = ground arith

  world-after_failure :
      (env : Round) (done : ℕ) (is_last : Bool) (e : Err) (s : LoopState W)
      → world_of (after_failure F cfg parse_text env done is_last e s) ≡ s.world
  unfolding after_failure
  world-after_failure env done true e s = refl
  world-after_failure env done false e s = world-wait_or_cancel env _ _

  world-after_call :
      (env : Round) (done : ℕ) (is_last : Bool) (s : LoopState W) (w : W) (reply : Reply)
      → world_of (after_call F cfg parse_text env done is_last s (w, reply)) ≡ w
  unfolding after_call
  world-after_call env done is_last s w (resp, none) = world-after_handle w resp s
  world-after_call env done is_last s w (resp, some e) = elim (Bool-cases (should_retry e)) [
    | inl retry ↦ rw retry (
        world-after_failure env done is_last e (after_handle w resp s)
        ∙ world-after_handle w resp s)
    | inr not_so ↦ rw not_so (world-after_handle w resp s)
  ]

  -- A round calls the handler once or not at all.
  pub world-attempt_once :
      (next : Handler W) (ctx : Context) (req : Request) (env : Round) (done : ℕ) (is_last : Bool)
      (s : LoopState W)
      → (world_of (attempt_once F cfg parse_text next ctx req env done is_last s) ≡ s.world)
        ⊎ (world_of (attempt_once F cfg parse_text next ctx req env done is_last s)
            ≡ (next ctx req s.world).0)
  unfolding attempt_once
  world-attempt_once next ctx req env done is_last s =
      let late =
        ltb_ℤ (pos 0) cfg.max_elapsed_time && ltb_ℤ cfg.max_elapsed_time env.elapsed_before in
      let spent = s.budget.enabled && exceeds_budget s.budget in
      let called = next ctx req s.world in
      elim (Bool-cases late) [
        | inl over ↦ inl (rw over refl)
        | inr in_time ↦ elim (Bool-cases spent) [
          | inl over ↦ inl (rw (in_time, over) refl)
          | inr not_so ↦
              inr (rw (in_time, not_so) (world-after_call env done is_last s called.0 called.1))
        ]
      ]

module _ (F : Floats) (cfg : RetryConfig F) (parse_text : Bytes → ℤ) {W : Type 0} where
  calls-attempt_once :
      (next : Handler W) (ctx : Context) (req : Request) (env : Round) (done : ℕ) (is_last : Bool)
      (s : LoopState (W × ℕ)) (x : Ended (W × ℕ))
      → attempt_once F cfg parse_text (counted next) ctx req env done is_last s ≡ x
      → (world_of x).1 ≤ s.world.1 + 1
  unfolding counted
  calls-attempt_once next ctx req env done is_last s x e =
      let at_most_one : (world_of
            (attempt_once F cfg parse_text (counted next) ctx req env done is_last s)).1
          ≤ s.world.1 + 1 =
        elim (world-attempt_once F cfg parse_text (counted next) ctx req env done is_last s) [
          | inl none_made ↦ rw none_made (omega arith)
          | inr one_made ↦ rw one_made (omega arith)
        ] in
      subst (λ (y : Ended (W × ℕ)). (world_of y).1 ≤ s.world.1 + 1) e at_most_one

  calls-run_attempts :
      (next : Handler W) (ctx : Context) (req : Request) (env : ℕ → Round) (total : ℤ)
      (left done : ℕ) (s : LoopState (W × ℕ))
      → (run_attempts F cfg parse_text (counted next) ctx req env total left done s).0.1.1
        ≤ s.world.1 + left
  unfolding run_attempts
  calls-run_attempts next ctx req env total zero done s = rw (world-finish total s) (omega arith)
  calls-run_attempts next ctx req env total (suc left) done s =
      let x =
        attempt_once F cfg parse_text (counted next) ctx req (env done) done (is_zero left) s in
      let step = calls-attempt_once next ctx req (env done) done (is_zero left) s in
      elim (Ended-cases x) [
        | inl (st, w, reply, e) ↦ rw (run_attempts, e) (omega (arith, step _ e))
        | inr (inl (s', e)) ↦ rw (run_attempts, e, world-finish total s') (omega (arith, step _ e))
        | inr (inr (s', e)) ↦
            rw (run_attempts, e)
              (omega
                (arith, step _ e, calls-run_attempts next ctx req env total left (suc done) s'))
      ]

  -- The retry middleware calls the handler below it at most `MaxAttempts` times for a request,
  -- whatever that handler does, however the clock runs and whatever the context says, if
  -- `MaxAttempts` is positive.
  pub calls-handle :
      (next : Handler W) (env : ℕ → Round) (cancelled : Option Err) (ctx : Context) (req : Request)
      (st : RetryStats) (w : W) (n : ℕ)
      → pos 0 <ℤ cfg.max_attempts
      → (handle F cfg parse_text (counted next) env cancelled ctx req (st, (w, n))).0.1.1
        ≤ n + pos_part cfg.max_attempts
  unfolding handle start
  calls-handle next env (some e) ctx req st w n positive = omega arith
  calls-handle next env none ctx req st w n positive =
      let total = max_attempts_in ctx cfg.max_attempts in
      let made =
        calls-run_attempts next ctx req env total (pos_part total) 0
          (start F cfg parse_text (st, (w, n))) in
      omega (arith, made, max_attempts_in-le ctx cfg.max_attempts positive)
