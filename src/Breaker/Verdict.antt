-- ===== src/Breaker/Verdict.antt =====
-- internal/llm/circuitbreaker/circuit_breaker.go: the three ways in which `allow` disposes of a
-- request, and what it takes for each.
use go_judgy.Prelude.{◌≡◌, refl, ◌⊎◌, inl, inr, true, false, Option, none, some, arith, Bool-cases}
use go_judgy.Prelude.Int.{leb_ℤ, ◌<ℤ◌, inc32}
use go_judgy.Errors.Types.{ProviderError}
use go_judgy.Breaker.State.{CircuitState, state_closed, state_open, state_half_open, CircuitBreaker}
use go_judgy.Breaker.Machine.{
  Readings, CircuitResult, nothing, release_slot, allow, allow_in, handle_half_open_probe,
  transition_to, still_open, err_circuit_open, err_half_open_limit,
}
use go_judgy.Breaker.Invariant.{IsValid}

-- How `allow` disposes of a request: turned away with nothing taken, let through a closed breaker,
-- or let through a half-open one with one more slot in use.
pub data Verdict (cb after : CircuitBreaker) (result : CircuitResult) (e : Option ProviderError)
    : Type 0 where
  turned_away :
      (err : ProviderError)
      → e ≡ some err
      → after.state ≡ cb.state
      → after.half_open_probes ≡ cb.half_open_probes
      → Verdict cb after result e
  plain :
      e ≡ none
      → result ≡ record { allowed = true; cleanup = nothing; is_half_open_probe = false }
      → after.state ≡ state_closed
      → Verdict cb after result e
  probe :
      e ≡ none
      → result ≡ record { allowed = true; cleanup = release_slot; is_half_open_probe = true }
      → after.state ≡ state_half_open
      → cb.half_open_probes <ℤ cb.max_half_open_probes
      → after.half_open_probes ≡ inc32 cb.half_open_probes
      → Verdict cb after result e

abbrev AllowVerdict : Readings → CircuitBreaker → Type 0
AllowVerdict env cb = let (after, result, e) = allow env cb in Verdict cb after result e

allow_closed :
    (env : Readings) (cb : CircuitBreaker) → cb.state ≡ state_closed → AllowVerdict env cb
unfolding allow allow_in
allow_closed env cb s = plain (ground arith) (ground arith) (ground arith)

allow_open_waiting :
    (env : Readings) (cb : CircuitBreaker)
    → cb.state ≡ state_open
    → still_open env cb ≡ true
    → AllowVerdict env cb
unfolding allow allow_in
allow_open_waiting env cb s w =
    turned_away err_circuit_open (ground arith) (ground arith) (ground arith)

allow_open_expired :
    (env : Readings) (cb : CircuitBreaker)
    → IsValid cb
    → cb.state ≡ state_open
    → still_open env cb ≡ false
    → AllowVerdict env cb
unfolding allow allow_in handle_half_open_probe transition_to
allow_open_expired env cb h s w =
    probe (ground arith) (ground arith) (ground arith) (ground arith) (ground arith)

allow_half_open_full :
    (env : Readings) (cb : CircuitBreaker)
    → cb.state ≡ state_half_open
    → leb_ℤ cb.max_half_open_probes cb.half_open_probes ≡ true
    → AllowVerdict env cb
unfolding allow allow_in handle_half_open_probe
allow_half_open_full env cb s f =
    turned_away err_half_open_limit (ground arith) (ground arith) (ground arith)

allow_half_open_free :
    (env : Readings) (cb : CircuitBreaker)
    → cb.state ≡ state_half_open
    → leb_ℤ cb.max_half_open_probes cb.half_open_probes ≡ false
    → AllowVerdict env cb
unfolding allow allow_in handle_half_open_probe
allow_half_open_free env cb s f =
    probe (ground arith) (ground arith) (ground arith) (ground arith) (ground arith)

pub State-cases : (s : CircuitState) → (s ≡ state_closed) ⊎ (s ≡ state_open) ⊎ (s ≡ state_half_open)
State-cases state_closed = inl refl
State-cases state_open = inr (inl refl)
State-cases state_half_open = inr (inr refl)

pub allow-Verdict :
    (env : Readings) (cb : CircuitBreaker)
    → IsValid cb
    → let (after, result, e) = allow env cb in Verdict cb after result e
allow-Verdict env cb h = elim (State-cases cb.state) [
  | inl s ↦ allow_closed env cb s
  | inr (inl s) ↦ elim (Bool-cases (still_open env cb)) [
    | inl w ↦ allow_open_waiting env cb s w
    | inr w ↦ allow_open_expired env cb h s w
  ]
  | inr (inr s) ↦ elim (Bool-cases (leb_ℤ cb.max_half_open_probes cb.half_open_probes)) [
    | inl f ↦ allow_half_open_full env cb s f
    | inr f ↦ allow_half_open_free env cb s f
  ]
]
