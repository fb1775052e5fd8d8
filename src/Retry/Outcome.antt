-- ===== src/Retry/Outcome.antt =====
-- internal/llm/retry/middleware.go: what the retry middleware answers when neither the clock, nor
-- the budget, nor the context cuts the attempts short.
use go_judgy.Prelude.{
  [], ◌∷◌, ℕ, zero, suc, ◌+◌, ◌<◌, ◌≡◌, refl, ◌∙◌, sym, ap, true, false, none, some, arith,
}
use go_judgy.Prelude.Int.{ℤ, pos, pos_part}
use go_judgy.Prelude.Bytes.{Bytes}
use go_judgy.Errors.Types.{Err}
use go_judgy.Transport.{half_open_probe_key, Request, Context, Reply}
use go_judgy.Floats.{Floats}
use go_judgy.Retry.Config.{RetryConfig}
use go_judgy.Retry.Stats.{RetryStats, new_request_budget}
use go_judgy.Retry.Loop.{
  Round, LoopState, returned, broke, again, finish, max_attempts_in, exhausted_error, attempt_once,
  run_attempts, start, handle, is_zero,
}
use go_judgy.Retry.Attempts.{world-finish}
use go_judgy.Retry.Script.{
  scripted, is_transient, response_seen, error_seen, answer_at, IsAfter, round-again, round-last,
  round-answer, attempt_once-reply,
}

reply-finish :
    {W : Type 0} (total : ℤ) (s : LoopState W) (e : Err)
    → s.last_err ≡ some e
    → (finish total s).1 ≡ (s.last_resp, some (exhausted_error total e))
unfolding finish
reply-finish total s e failed = rw failed refl

module _ (F : Floats) (cfg : RetryConfig F) (parse_text : Bytes → ℤ) (script : ℕ → Reply)
    (untimed : cfg.max_elapsed_time ≡ pos 0) where
  run_attempts-returned :
      (ctx : Context) (req : Request) (env : ℕ → Round) (total : ℤ) (left done : ℕ)
      (s : LoopState ℕ) (st : RetryStats) (w : ℕ) (reply : Reply)
      → attempt_once F cfg parse_text (scripted script) ctx req (env done) done (is_zero left) s
        ≡ returned st w reply
      → run_attempts F cfg parse_text (scripted script) ctx req env total (suc left) done s
        ≡ ((st, w), reply)
  unfolding run_attempts
  run_attempts-returned ctx req env total left done s st w reply e = rw (run_attempts, e) refl

  run_attempts-broke :
      (ctx : Context) (req : Request) (env : ℕ → Round) (total : ℤ) (left done : ℕ)
      (s s' : LoopState ℕ)
      → attempt_once F cfg parse_text (scripted script) ctx req (env done) done (is_zero left) s
        ≡ broke s'
      → run_attempts F cfg parse_text (scripted script) ctx req env total (suc left) done s
        ≡ finish total s'
  unfolding run_attempts
  run_attempts-broke ctx req env total left done s s' e = rw (run_attempts, e) refl

  run_attempts-again :
      (ctx : Context) (req : Request) (env : ℕ → Round) (total : ℤ) (left done : ℕ)
      (s s' : LoopState ℕ)
      → attempt_once F cfg parse_text (scripted script) ctx req (env done) done (is_zero left) s
        ≡ again s'
      → run_attempts F cfg parse_text (scripted script) ctx req env total (suc left) done s
        ≡ run_attempts F cfg parse_text (scripted script) ctx req env total left (suc done) s'
  unfolding run_attempts
  run_attempts-again ctx req env total left done s s' e = rw (run_attempts, e) refl

  -- The loop reaches the first reply that is not tried again, k rounds on.
  run_attempts-first :
      (ctx : Context) (req : Request) (env : ℕ → Round) (total : ℤ) (k left done target : ℕ)
      (s : LoopState ℕ)
      → IsAfter script done s
      → ((i : ℕ) → (env i).cancelled ≡ none)
      → ((i : ℕ) → i < target → is_transient (script i) ≡ true)
      → is_transient (script target) ≡ false
      → target ≡ done + k
      → k < left
      → (st : RetryStats) × (run_attempts F cfg parse_text
            (scripted script)
            ctx
            req
            env
            total
            left
            done
            s
          ≡ ((st, suc target), answer_at script target))
  run_attempts-first ctx req env total k zero done target s at going transient final e room =
      ground (arith, room)
  run_attempts-first ctx req env total zero (suc left) done target s at going transient final e
        room =
      let here : target ≡ done = omega (arith, e) in
      let answer =
        round-answer F cfg parse_text script untimed (env done) done (is_zero left) s (script done)
          at refl (ap (λ i. is_transient (script i)) (sym here) ∙ final) in
      rw here (
        answer.0,
        run_attempts-returned ctx req env total left done s answer.0 (suc done)
            (answer_at script done)
            (attempt_once-reply F cfg parse_text script untimed ctx req (env done) done
                (is_zero left) s at
              ∙ answer.1),
      )
  run_attempts-first ctx req env total (suc k) (suc zero) done target s at going transient final e
        room =
      ground (arith, room)
  run_attempts-first ctx req env total (suc k) (suc (suc left)) done target s at going transient
        final e room =
      let next =
        round-again F cfg parse_text script untimed (env done) done s (script done) at refl
          (transient done (omega (arith, e))) (going done) in
      let rest =
        run_attempts-first ctx req env total k (suc left) (suc done) target next.0 next.2 going
          transient final (omega (arith, e)) (omega (arith, room)) in
      (
        rest.0,
        run_attempts-again ctx req env total (suc left) done s next.0 (
              attempt_once-reply F cfg parse_text script untimed ctx req (env done) done false s at
              ∙ next.1)
            ∙ rest.1,
      )

  -- All replies up to the last round are tried again.
  run_attempts-exhausted :
      (ctx : Context) (req : Request) (env : ℕ → Round) (total : ℤ) (left done target : ℕ)
      (s : LoopState ℕ)
      → IsAfter script done s
      → ((i : ℕ) → (env i).cancelled ≡ none)
      → ((i : ℕ) → i < target → is_transient (script i) ≡ true)
      → target ≡ done + suc left
      → (s' : LoopState ℕ) × (run_attempts F cfg parse_text
            (scripted script)
            ctx
            req
            env
            total
            (suc left)
            done
            s
          ≡ finish total s')
        × IsAfter script target s'
  run_attempts-exhausted ctx req env total zero done target s at going transient e =
      let here : target ≡ suc done = omega (arith, e) in
      let last =
        round-last F cfg parse_text script untimed (env done) done s (script done) at refl
          (transient done (omega (arith, e))) in
      rw here (
        last.0,
        run_attempts-broke ctx req env total 0 done s last.0 (
            attempt_once-reply F cfg parse_text script untimed ctx req (env done) done true s at
            ∙ last.1),
        last.2,
      )
  run_attempts-exhausted ctx req env total (suc left) done target s at going transient e =
      let next =
        round-again F cfg parse_text script untimed (env done) done s (script done) at refl
          (transient done (omega (arith, e))) (going done) in
      let rest =
        run_attempts-exhausted ctx req env total left (suc done) target next.0 next.2 going
          transient (omega (arith, e)) in
      (
        rest.0,
        run_attempts-again ctx req env total (suc left) done s next.0 (
              attempt_once-reply F cfg parse_text script untimed ctx req (env done) done false s at
              ∙ next.1)
            ∙ rest.1,
        rest.2,
      )

  IsAfter-start :
      (st : RetryStats)
      → cfg.enable_budget ≡ false
      → IsAfter script 0 (start F cfg parse_text (st, 0))
  unfolding start new_request_budget response_seen error_seen
  IsAfter-start st off = record { calls = refl; unlimited = off; response = refl; error = refl }

  -- With no limit on time or budget and a context that is never cancelled, when the first k replies
  -- of the handler below are to be tried again, reply k is not, and k is below the number of
  -- attempts, then the handler is called exactly k + 1 times, and the caller gets reply k: a success
  -- as it is, an error with the last response that any reply had.
  pub handle-first :
      (ctx : Context) (req : Request) (env : ℕ → Round) (st : RetryStats) (k : ℕ)
      → cfg.enable_budget ≡ false
      → ((i : ℕ) → (env i).cancelled ≡ none)
      → ((i : ℕ) → i < k → is_transient (script i) ≡ true)
      → is_transient (script k) ≡ false
      → k < pos_part (max_attempts_in ctx cfg.max_attempts)
      → ((handle F cfg parse_text (scripted script) env none ctx req (st, 0)).0.1 ≡ suc k)
        × ((handle F cfg parse_text (scripted script) env none ctx req (st, 0)).1
            ≡ answer_at script k)
  unfolding handle error_seen
  handle-first ctx req env st k off going transient final room =
      let total = max_attempts_in ctx cfg.max_attempts in
      let run =
        run_attempts-first ctx req env total k (pos_part total) 0 k (start F cfg parse_text (st, 0))
          (IsAfter-start st off) going transient final (omega arith) room in
      (ap (λ r. r.0.1) run.1, ap (λ r. r.1) run.1)

  -- With no limit on time or budget and a context that is never cancelled, when the replies of all
  -- n + 1 attempts are to be tried again and the last of them has error e, then the handler below is
  -- called exactly n + 1 times, and the caller gets e as an exhaustion of n + 1 attempts, with the
  -- last response that any reply had.
  pub handle-exhausted :
      (ctx : Context) (req : Request) (env : ℕ → Round) (st : RetryStats) (n : ℕ) (e : Err)
      → cfg.enable_budget ≡ false
      → ((i : ℕ) → (env i).cancelled ≡ none)
      → ((i : ℕ) → i < suc n → is_transient (script i) ≡ true)
      → (script n).1 ≡ some e
      → max_attempts_in ctx cfg.max_attempts ≡ pos (suc n)
      → ((handle F cfg parse_text (scripted script) env none ctx req (st, 0)).0.1 ≡ suc n)
        × ((handle F cfg parse_text (scripted script) env none ctx req (st, 0)).1
            ≡ (response_seen script (suc n), some (exhausted_error (pos (suc n)) e)))
  unfolding handle error_seen
  handle-exhausted ctx req env st n e off going transient last attempts =
      let run =
        run_attempts-exhausted ctx req env (pos (suc n)) n 0 (suc n)
          (start F cfg parse_text (st, 0)) (IsAfter-start st off) going transient (omega arith) in
      let failed = run.2.error ∙ last in
      rw (attempts, run.1)
        (
          world-finish (pos (suc n)) run.0 ∙ run.2.calls,
          reply-finish (pos (suc n)) run.0 e failed ∙ rw run.2.response refl,
        )

  -- The mark that the circuit breaker puts into the context of a half-open probe does not limit the
  -- attempts. With no limit on time or budget and a context that is never cancelled, when the
  -- replies of all `MaxAttempts` attempts are to be tried again, the handler below is called
  -- `MaxAttempts` times for a probe.
  pub handle-probe :
      (req : Request) (env : ℕ → Round) (st : RetryStats) (n : ℕ) (e : Err)
      → cfg.enable_budget ≡ false
      → ((i : ℕ) → (env i).cancelled ≡ none)
      → ((i : ℕ) → i < suc n → is_transient (script i) ≡ true)
      → (script n).1 ≡ some e
      → cfg.max_attempts ≡ pos (suc n)
      → (handle F cfg parse_text
          (scripted script)
          env
          none
          (half_open_probe_key ∷ [])
          req
          (st, 0)).0.1
        ≡ suc n
  handle-probe req env st n e off going transient last attempts =
      (handle-exhausted (half_open_probe_key ∷ []) req env st n e off going transient last
        attempts).0
