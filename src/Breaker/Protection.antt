-- ===== src/Breaker/Protection.antt =====
-- internal/llm/circuitbreaker/middleware.go: what the breakers promise to the providers behind them
-- and to the requests before them.
use go_judgy.Prelude.{◌≡◌, ◌≢◌, true, false, Option, none, some, arith}
use go_judgy.Prelude.Int.{ℤ, pos, ◌≤ℤ◌, ◌<ℤ◌, inc32, dec32, max_int32}
use go_judgy.Errors.Types.{ProviderError}
use go_judgy.Transport.{Request, Context, Reply, Handler}
use go_judgy.Breaker.State.{state_closed, state_half_open, CircuitBreaker}
use go_judgy.Breaker.Machine.{
  Readings, Cleanup, CircuitResult, nothing, release_slot, allow, run_cleanup, record_success,
  success_in, record_failure, failure_in,
}
use go_judgy.Breaker.Invariant.{IsValid, ask, succeed, fail, cleanup, step, step-IsValid}
use go_judgy.Breaker.Verdict.{Verdict, turned_away, plain, probe, allow-Verdict}
use go_judgy.Breaker.Middleware.{
  BreakerMiddleware, Turn, finish, after_allow, through_breaker, count_conflict, request_context,
}

asked-IsValid : (env : Readings) (cb : CircuitBreaker) → IsValid cb → IsValid (allow env cb).0
unfolding step
asked-IsValid env cb h = step-IsValid cb (ask env) h

cleanup-IsValid : (c : Cleanup) (cb : CircuitBreaker) → IsValid cb → IsValid (run_cleanup c cb)
unfolding step
cleanup-IsValid c cb h = step-IsValid cb (cleanup c) h

conflict-IsValid : (cb : CircuitBreaker) → IsValid cb → IsValid (count_conflict cb)
conflict-IsValid cb h = ground arith

finish-IsValid :
    (turn : Turn) (cb : CircuitBreaker) (r : Reply) → IsValid cb → IsValid (finish turn cb r).0
unfolding finish step
finish-IsValid turn cb (resp, none) h = step-IsValid cb (succeed turn.ended) h
finish-IsValid turn cb (resp, some e) h = step-IsValid cb (fail turn.ended) h

-- A success or a failure recorded outside the half-open state does not lead into it, and within it
-- keeps the slots in use or leaves it.
finish-closed :
    (turn : Turn) (cb : CircuitBreaker) (r : Reply)
    → cb.state ≡ state_closed
    → (finish turn cb r).0.state ≢ state_half_open
unfolding finish record_success success_in record_failure failure_in
finish-closed turn cb (resp, none) s e = ground arith
finish-closed turn cb (resp, some x) s e = ground arith

finish-half_open :
    (turn : Turn) (cb : CircuitBreaker) (r : Reply)
    → cb.state ≡ state_half_open
    → (finish turn cb r).0.state ≡ state_half_open
    → (finish turn cb r).0.half_open_probes ≡ cb.half_open_probes
unfolding finish record_success success_in record_failure failure_in
finish-half_open turn cb (resp, none) s e = ground arith
finish-half_open turn cb (resp, some x) s e = ground arith

release-inc32 :
    (cb : CircuitBreaker) (p : ℤ)
    → pos 0 ≤ℤ p
    → p <ℤ pos max_int32
    → cb.half_open_probes ≡ inc32 p
    → (run_cleanup release_slot cb).half_open_probes ≡ p
unfolding run_cleanup inc32 dec32
release-inc32 cb p low high e = ground arith

run_cleanup-state : (k : Cleanup) (cb : CircuitBreaker) → (run_cleanup k cb).state ≡ cb.state
unfolding run_cleanup
run_cleanup-state k cb = ground arith

module _ {W : Type 0} (c : BreakerMiddleware) (turn : Turn) (next : Handler W) (ctx : Context)
    (req : Request) (w : W) where
  after_allow-IsValid :
      (asked : CircuitBreaker) (result : CircuitResult) (e : Option ProviderError)
      → IsValid asked
      → IsValid (after_allow c turn next ctx req w asked result e).0
  unfolding after_allow
  after_allow-IsValid asked result (some err) h = h
  after_allow-IsValid asked result none h =
      let (w', reply) = next (request_context result.is_half_open_probe ctx) req w in
      ground (
        arith,
        conflict-IsValid asked h,
        finish-IsValid turn asked reply h,
        cleanup-IsValid result.cleanup (count_conflict asked),
        cleanup-IsValid result.cleanup (finish turn asked reply).0,
      )

  pub through_breaker-IsValid :
      (cb : CircuitBreaker) → IsValid cb → IsValid (through_breaker c turn next ctx req w cb).0
  unfolding through_breaker
  through_breaker-IsValid cb h = after_allow-IsValid _ _ _ (asked-IsValid turn.asked cb h)

  plain-slots :
      (asked : CircuitBreaker)
      → asked.state ≡ state_closed
      → (after_allow c turn next ctx req w asked
          (record { allowed = true; cleanup = nothing; is_half_open_probe = false })
          none).0.state
        ≢ state_half_open
  unfolding after_allow run_cleanup
  plain-slots asked s e = finish-closed turn asked (next ctx req w).1 s e

  probe-slots :
      (asked : CircuitBreaker) (p : ℤ)
      → pos 0 ≤ℤ p
      → p <ℤ pos max_int32
      → asked.state ≡ state_half_open
      → asked.half_open_probes ≡ inc32 p
      → let after =
          (after_allow c turn next ctx req w asked
            (record { allowed = true; cleanup = release_slot; is_half_open_probe = true })
            none).0 in
        after.state ≡ state_half_open → after.half_open_probes ≡ p
  unfolding after_allow
  probe-slots asked p low high s q =
      let reply = (next (request_context true ctx) req w).1 in
      let ended = (finish turn asked reply).0 in
      ground (
        arith,
        finish-half_open turn asked reply s,
        run_cleanup-state release_slot ended,
        release-inc32 (count_conflict asked) p low high,
        release-inc32 ended p low high,
      )

  after_allow-slots :
      (cb asked : CircuitBreaker) (result : CircuitResult) (e : Option ProviderError)
      → IsValid cb
      → Verdict cb asked result e
      → (after_allow c turn next ctx req w asked result e).0.state ≡ state_half_open
      → (after_allow c turn next ctx req w asked result e).0.half_open_probes ≡ cb.half_open_probes
  unfolding after_allow
  after_allow-slots cb asked result e h (turned_away err p s q) = rw p (λ half. q)
  after_allow-slots cb asked result e h (plain p r s) =
      rw (p, r) (λ half. absurd (plain-slots asked s half))
  after_allow-slots cb asked result e h (probe p r s free q) =
      rw (p, r)
        (probe-slots asked cb.half_open_probes h.probes_nonneg (omega (arith, h.probe_range)) s q)

-- When a valid breaker is half-open after a request went through it, it has the probe slots in use
-- that it had before the request, whatever the handler behind it did and whether or not the request
-- was admitted or met a probe of another instance.
pub slots_returned :
    {W : Type 0} (c : BreakerMiddleware) (turn : Turn) (next : Handler W) (ctx : Context)
    (req : Request) (w : W) (cb : CircuitBreaker)
    → IsValid cb
    → (through_breaker c turn next ctx req w cb).0.state ≡ state_half_open
    → (through_breaker c turn next ctx req w cb).0.half_open_probes ≡ cb.half_open_probes
unfolding through_breaker
slots_returned c turn next ctx req w cb h =
    after_allow-slots c turn next ctx req w cb _ _ _ h (allow-Verdict turn.asked cb h)
