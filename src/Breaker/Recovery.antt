-- ===== src/Breaker/Recovery.antt =====
-- internal/llm/circuitbreaker/circuit_breaker.go: how long an open breaker refuses requests, and
-- how the probes of a half-open breaker close it or open it again.
use go_judgy.Prelude.{
  ℕ, suc, ◌+◌, ◌-◌, ◌/◌, ◌≤◌, ◌<◌, ◌≡◌, ◌∙◌, true, false, none, some, List, [], ◌∷◌, map, arith,
  length, leb, ltb, le→leb, lt→leb, if◌then◌else◌,
}
use native.Mathlib.Decide.{dec_lt}
use go_judgy.Prelude.Int.{
  ℤ, pos, pos_part, ◌≤ℤ◌, ◌<ℤ◌, inc32, max_int32, max_int64, pos_of_nonneg, pos-+ℤ, pos--ℤ,
  pos_part-lt, int64-pos, saturate64-pos,
}
use go_judgy.Breaker.State.{state_closed, state_open, state_half_open, CircuitBreaker}
use go_judgy.Breaker.Machine.{
  Readings, allow, allow_in, still_open, get_jitter, transition_to, handle_half_open_probe,
  record_success, success_in, record_failure, failure_in, err_circuit_open,
}
use go_judgy.Breaker.Invariant.{IsValid}
use go_judgy.Breaker.Outcomes.{record_outcome, record_all, succeeded}

-- What `rand.Int63n` documents: for a positive bound the result lies in [0, bound).
abbrev pub DrawsBelow : (ℤ → ℤ) → Type 0
DrawsBelow int63n = (n : ℕ) → 0 < n → (pos 0 ≤ℤ int63n (pos n)) × (int63n (pos n) <ℤ pos n)

jitter-zero :
    (env : Readings) (cb : CircuitBreaker) (t : ℕ)
    → cb.open_timeout ≡ pos t
    → t / 10 ≡ 0
    → get_jitter env.int63n cb ≡ pos 0
unfolding get_jitter
jitter-zero env cb t e z = ground arith

jitter-draw :
    (env : Readings) (cb : CircuitBreaker) (t : ℕ)
    → cb.open_timeout ≡ pos t
    → 0 < t / 10
    → get_jitter env.int63n cb ≡ env.int63n (pos (t / 10))
unfolding get_jitter
jitter-draw env cb t e z = ground arith

-- The jitter is a natural number of at most a tenth of the timeout.
jitter_bounds :
    (env : Readings) (cb : CircuitBreaker) (t : ℕ)
    → DrawsBelow env.int63n
    → cb.open_timeout ≡ pos t
    → (j : ℕ) × (get_jitter env.int63n cb ≡ pos j) × (j ≤ t / 10)
jitter_bounds env cb t d e = elim (dec_lt 0 (t / 10)) [
  | no z ↦ (0, jitter-zero env cb t e (omega arith), omega arith)
  | yes z ↦
      let (low, high) = d (t / 10) z in
      (
        pos_part (env.int63n (pos (t / 10))),
        jitter-draw env cb t e z ∙ pos_of_nonneg _ low,
        omega (arith, pos_part-lt _ _ low high),
      )
]

-- An open breaker at n nanoseconds whose last failure was at l, with a timeout of t nanoseconds.
pub record IsWaiting (env : Readings) (cb : CircuitBreaker) (l n t : ℕ) : Type 0 where
  pub opened : cb.state ≡ state_open
  pub last : cb.last_failure_time ≡ pos l
  pub now : env.since_now ≡ pos n
  pub timeout : cb.open_timeout ≡ pos t
  pub later : l ≤ n
  pub now_fits : n ≤ max_int64
  pub timeout_fits : t + t / 10 ≤ max_int64
  pub draws : DrawsBelow env.int63n

still_open_lem :
    (env : Readings) (cb : CircuitBreaker) (l n t j : ℕ)
    → IsWaiting env cb l n t
    → get_jitter env.int63n cb ≡ pos j
    → j ≤ t / 10
    → still_open env cb ≡ leb (n - l) (t + j)
unfolding still_open
still_open_lem env cb l n t j w e le =
    rw
      (
        e,
        w.now,
        w.last,
        w.timeout,
        pos--ℤ n l w.later,
        pos-+ℤ t j,
        int64-pos (t + j) (omega (arith, w.timeout_fits)),
        saturate64-pos (n - l) (omega (arith, w.now_fits)),
      )
      (ground arith)

waiting-rejects :
    (env : Readings) (cb : CircuitBreaker)
    → cb.state ≡ state_open
    → still_open env cb ≡ true
    → ((allow env cb).0.state ≡ state_open)
      × ((allow env cb).1.allowed ≡ false)
      × ((allow env cb).2 ≡ some err_circuit_open)
unfolding allow allow_in
waiting-rejects env cb o w = ground arith

expired-probes :
    (env : Readings) (cb : CircuitBreaker)
    → IsValid cb
    → cb.state ≡ state_open
    → still_open env cb ≡ false
    → ((allow env cb).0.state ≡ state_half_open)
      × ((allow env cb).1.is_half_open_probe ≡ true)
      × ((allow env cb).2 ≡ none)
      × ((allow env cb).0.half_open_probes ≡ pos 1)
unfolding allow allow_in handle_half_open_probe transition_to inc32
expired-probes env cb h o w = ground arith

-- An open breaker with timeout t, last failure at l, is asked at n ≥ l (all of them natural numbers
-- of nanoseconds that fit an int64), with any jitter that `rand.Int63n` may draw. While
-- n - l ≤ t it refuses with CIRCUIT_OPEN and stays open. Once t + t / 10 < n - l a valid breaker
-- becomes half-open and admits the request as its one probe.
pub allow_open_window :
    (env : Readings) (cb : CircuitBreaker) (l n t : ℕ)
    → IsWaiting env cb l n t
    → IsValid cb
    → (n - l ≤ t
        → ((allow env cb).0.state ≡ state_open)
          × ((allow env cb).1.allowed ≡ false)
          × ((allow env cb).2 ≡ some err_circuit_open))
      × (t + t / 10 < n - l
          → ((allow env cb).0.state ≡ state_half_open)
            × ((allow env cb).1.is_half_open_probe ≡ true)
            × ((allow env cb).2 ≡ none)
            × ((allow env cb).0.half_open_probes ≡ pos 1))
allow_open_window env cb l n t w h =
    let (j, e, le) = jitter_bounds env cb t w.draws w.timeout in
    let verdict = still_open_lem env cb l n t j w e le in
    (
      λ early. waiting-rejects env cb w.opened (verdict ∙ le→leb (n - l) (t + j) (omega arith)),
      λ late. expired-probes env cb h w.opened (verdict ∙ lt→leb (t + j) (n - l) (omega arith)),
    )

-- A valid half-open breaker that has counted s of the k successes it needs.
pub record IsProbing (k s : ℕ) (cb : CircuitBreaker) : Type 0 where
  pub half_open : cb.state ≡ state_half_open
  pub threshold : cb.success_threshold ≡ pos k
  pub counted : cb.successes ≡ pos s
  pub below : s < k
  pub small : k ≤ max_int32

success-IsProbing :
    (k s : ℕ) (cb : CircuitBreaker) (env : Readings)
    → IsProbing k s cb
    → suc s < k
    → IsProbing k (suc s) (record_outcome cb (true, env))
unfolding record_outcome record_success success_in inc32
success-IsProbing k s cb env h more = ground arith

success-closes :
    (k s : ℕ) (cb : CircuitBreaker) (env : Readings)
    → IsProbing k s cb
    → suc s ≡ k
    → (record_outcome cb (true, env)).state ≡ state_closed
unfolding record_outcome record_success success_in inc32
success-closes k s cb env h last = ground arith

success-closed :
    (cb : CircuitBreaker) (env : Readings)
    → cb.state ≡ state_closed
    → (record_outcome cb (true, env)).state ≡ state_closed
unfolding record_outcome record_success success_in
success-closed cb env h = ground arith

stays_closed :
    (cb : CircuitBreaker) (envs : List Readings)
    → cb.state ≡ state_closed
    → (record_all cb (map succeeded envs)).state ≡ state_closed
unfolding record_all
stays_closed cb [] h = h
stays_closed cb (env ∷ envs) h =
    stays_closed (record_outcome cb (true, env)) envs (success-closed cb env h)

-- A half-open breaker that has counted s < k of its k successes (k a positive int32) is still
-- half-open after a row of recorded successes that brings the count to less than k, and closed
-- after any longer row.
pub successes_close :
    (k s : ℕ) (cb : CircuitBreaker) (envs : List Readings)
    → IsProbing k s cb
    → (record_all cb (map succeeded envs)).state
      ≡ (if ltb (s + length envs) k then state_half_open else state_closed)
unfolding record_all
successes_close k s cb [] h = ground (arith, h.below)
successes_close k s cb (env ∷ envs) h = elim (dec_lt (suc s) k) [
  | yes more ↦
      successes_close k (suc s) (record_outcome cb (true, env)) envs
        (success-IsProbing k s cb env h more)
      ∙ ground arith
  | no last ↦
      stays_closed (record_outcome cb (true, env)) envs
        (success-closes k s cb env h (omega (arith, h.below)))
      ∙ ground (arith, h.below)
]

-- One recorded failure opens a half-open breaker again, whatever it had counted, empties its
-- counters and probe slots, and starts the timeout anew.
pub probe_failure_reopens :
    (env : Readings) (cb : CircuitBreaker)
    → cb.state ≡ state_half_open
    → let after = record_failure env cb in
      (after.state ≡ state_open)
      × (after.failures ≡ pos 0)
      × (after.successes ≡ pos 0)
      × (after.half_open_probes ≡ pos 0)
      × (after.last_failure_time ≡ env.failure_now)
unfolding record_failure failure_in
probe_failure_reopens env cb h = ground arith
