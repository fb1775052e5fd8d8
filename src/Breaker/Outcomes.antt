-- ===== src/Breaker/Outcomes.antt =====
-- internal/llm/circuitbreaker/circuit_breaker.go: when recorded outcomes trip a closed breaker.
use go_judgy.Prelude.{
  ℕ, suc, ◌+◌, ◌≤◌, ◌<◌, ◌≡◌, ◌↔◌, ◌⊎◌, inl, inr, refl, ap, Bool, true, false, none, List, [], ◌∷◌,
  ◌++◌, map, arith, length,
}
use native.Mathlib.Decide.{dec_lt}
use go_judgy.Prelude.Int.{pos, inc32, max_int32}
use go_judgy.Breaker.State.{state_closed, state_open, CircuitBreaker}
use go_judgy.Breaker.Machine.{
  Readings, record_success, record_failure, observe, success_in, failure_in,
}

-- A request that ended, with success (`true`) or failure.
abbrev pub Outcome : Type 0
Outcome = Bool × Readings

unfoldable pub record_outcome : CircuitBreaker → Outcome → CircuitBreaker
record_outcome cb (true, env) = record_success env cb
record_outcome cb (false, env) = record_failure env cb

unfoldable pub record_all : CircuitBreaker → List Outcome → CircuitBreaker
record_all cb [] = cb
record_all cb (o ∷ os) = record_all (record_outcome cb o) os

abbrev pub failed : Readings → Outcome
failed env = (false, env)

abbrev pub succeeded : Readings → Outcome
succeeded env = (true, env)

-- A closed breaker with a fixed threshold k that has counted f < k failures in a row.
pub record IsCounting (k f : ℕ) (cb : CircuitBreaker) : Type 0 where
  pub closed : cb.state ≡ state_closed
  pub fixed : cb.adaptive ≡ none
  pub threshold : cb.failure_threshold ≡ pos k
  pub counted : cb.failures ≡ pos f
  pub below : f < k
  pub small : k ≤ max_int32

failure-closed :
    (k f : ℕ) (cb : CircuitBreaker) (env : Readings)
    → IsCounting k f cb
    → suc f < k
    → IsCounting k (suc f) (record_outcome cb (false, env))
unfolding record_outcome record_failure failure_in observe inc32
failure-closed k f cb env h more = ground arith

failure-opens :
    (k f : ℕ) (cb : CircuitBreaker) (env : Readings)
    → IsCounting k f cb
    → suc f ≡ k
    → (record_outcome cb (false, env)).state ≡ state_open
unfolding record_outcome record_failure failure_in observe inc32
failure-opens k f cb env h last = ground arith

success-counts :
    (k f : ℕ) (cb : CircuitBreaker) (env : Readings)
    → IsCounting k f cb
    → IsCounting k 0 (record_outcome cb (true, env))
unfolding record_outcome record_success success_in observe
success-counts k f cb env h = ground arith

outcome_open :
    (cb : CircuitBreaker) (o : Outcome)
    → cb.state ≡ state_open
    → (record_outcome cb o).state ≡ state_open
unfolding record_outcome record_success record_failure success_in failure_in
outcome_open cb (true, env) h = ground arith
outcome_open cb (false, env) h = ground arith

failure-cases :
    (k f : ℕ) (cb : CircuitBreaker) (env : Readings)
    → IsCounting k f cb
    → IsCounting k (suc f) (record_outcome cb (false, env))
      ⊎ ((suc f ≡ k) × ((record_outcome cb (false, env)).state ≡ state_open))
failure-cases k f cb env h = elim (dec_lt (suc f) k) [
  | yes more ↦ inl (failure-closed k f cb env h more)
  | no last ↦ let e : suc f ≡ k = omega (arith, h.below) in inr (e, failure-opens k f cb env h e)
]

all_open :
    (cb : CircuitBreaker) (os : List Outcome)
    → cb.state ≡ state_open
    → (record_all cb os).state ≡ state_open
unfolding record_all
all_open cb [] h = h
all_open cb (o ∷ os) h = all_open (record_outcome cb o) os (outcome_open cb o h)

-- Some k failures in a row stand among the outcomes.
abbrev pub HasStreak : ℕ → List Outcome → Type 0
HasStreak k os =
    (before : List Outcome) × (streak : List Readings) × (after : List Outcome) × (os
      ≡ before ++ (map failed streak ++ after))
    × (k ≤ length streak)

-- They stand at the front, counting f earlier ones in.
abbrev StartsStreak : ℕ → ℕ → List Outcome → Type 0
StartsStreak k f os =
    (streak : List Readings) × (after : List Outcome) × (os ≡ map failed streak ++ after)
    × (k ≤ f + length streak)

HasStreak-cons : (k : ℕ) (o : Outcome) (os : List Outcome) → HasStreak k os → HasStreak k (o ∷ os)
HasStreak-cons k o os (before, streak, after, e, l) =
    (o ∷ before, streak, after, ap (λ r. o ∷ r) e, l)

StartsStreak-has : (k : ℕ) (os : List Outcome) → StartsStreak k 0 os → HasStreak k os
StartsStreak-has k os (streak, after, e, l) = ([], streak, after, e, omega arith)

streak_of_open :
    (k f : ℕ) (cb : CircuitBreaker) (os : List Outcome)
    → IsCounting k f cb
    → (record_all cb os).state ≡ state_open
    → StartsStreak k f os ⊎ HasStreak k os
unfolding record_all
streak_of_open k f cb [] h e = absurd (ground (arith, h.closed))
streak_of_open k f cb ((true, env) ∷ os) h e =
    elim (streak_of_open k 0 (record_outcome cb (true, env)) os (success-counts k f cb env h) e) [
      | inl s ↦ inr (HasStreak-cons k (true, env) os (StartsStreak-has k os s))
      | inr s ↦ inr (HasStreak-cons k (true, env) os s)
    ]
streak_of_open k f cb ((false, env) ∷ os) h e = elim (failure-cases k f cb env h) [
  | inr (last, opened) ↦ inl (env ∷ [], os, refl, omega arith)
  | inl more ↦ elim (streak_of_open k (suc f) (record_outcome cb (false, env)) os more e) [
    | inl (streak, after, p, l) ↦
        inl (env ∷ streak, after, ap (λ r. (false, env) ∷ r) p, omega arith)
    | inr s ↦ inr (HasStreak-cons k (false, env) os s)
  ]
]

streak_opens :
    (k f : ℕ) (cb : CircuitBreaker) (streak : List Readings) (after : List Outcome)
    → IsCounting k f cb
    → k ≤ f + length streak
    → (record_all cb (map failed streak ++ after)).state ≡ state_open
unfolding record_all
streak_opens k f cb [] after h l = absurd (omega (arith, h.below))
streak_opens k f cb (env ∷ streak) after h l = elim (failure-cases k f cb env h) [
  | inr (last, opened) ↦ all_open _ (map failed streak ++ after) opened
  | inl more ↦ streak_opens k (suc f) _ streak after more (omega arith)
]

opens_after :
    (k f : ℕ) (cb : CircuitBreaker) (before : List Outcome) (streak : List Readings)
    (after : List Outcome)
    → IsCounting k f cb
    → k ≤ length streak
    → (record_all cb (before ++ (map failed streak ++ after))).state ≡ state_open
unfolding record_all
opens_after k f cb [] streak after h l = streak_opens k f cb streak after h (omega arith)
opens_after k f cb ((true, env) ∷ before) streak after h l =
    opens_after k 0 _ before streak after (success-counts k f cb env h) l
opens_after k f cb ((false, env) ∷ before) streak after h l = elim (failure-cases k f cb env h) [
  | inr (last, opened) ↦ all_open _ (before ++ (map failed streak ++ after)) opened
  | inl more ↦ opens_after k (suc f) _ before streak after more l
]

-- A closed breaker without adaptive thresholds, whose threshold k is a positive int32 and which
-- has counted no failure yet, is open after a list of recorded outcomes exactly when k failures
-- in a row stand among them.
pub open_iff_streak :
    (k : ℕ) (cb : CircuitBreaker) (os : List Outcome)
    → IsCounting k 0 cb
    → ((record_all cb os).state ≡ state_open) ↔ HasStreak k os
open_iff_streak k cb os h = (
  λ e. elim (streak_of_open k 0 cb os h e) [ inl s ↦ StartsStreak-has k os s | inr s ↦ s ],
  λ (before, streak, after, e, l). rw e (opens_after k 0 cb before streak after h l),
)
