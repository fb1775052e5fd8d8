-- ===== src/Errors/Stability.antt =====
-- internal/llm/errors/classification.go: classifying a classified error again.
use go_judgy.Prelude.{
  ◌≡◌, refl, Bool, true, false, Bool-cases, inl, inr, Option, none, some, if◌then◌else◌,
}
use go_judgy.Prelude.Bytes.{Bytes}
use go_judgy.Errors.Types.{Err, ErrorType, Sentinel, WorkflowError, workflow_error_of, or_else}
use go_judgy.Errors.Types.{as_provider_error, as_rate_limit_error, as_circuit_breaker_error}
use go_judgy.Errors.Text.{error_text, error_type_text, workflow_text, to_lower, contains}
use go_judgy.Errors.Classify.{
  as_validation_error, as_pricing_error, is_sentinel, classify_typed_errors,
  classify_sentinel_errors, classify_text, classify_string_pattern_errors, classify_llm_error,
  classified, or_classify, workflow, rate_limited, timed_out, unauthorized, forbidden, over_quota,
  disconnected, unrecognised,
}

-- The parts of a classification that decide how the workflow goes on.
pub record SameClass (v w : WorkflowError) : Type 0 where
  pub error_type : v.error_type ≡ w.error_type
  pub code : v.code ≡ w.code
  pub retryable : v.retryable ≡ w.retryable

SameClass-refl : (w : WorkflowError) → SameClass w w
SameClass-refl w = record { error_type = refl; code = refl; retryable = refl }

abbrev SameOption : Option WorkflowError → Option WorkflowError → Type 0
SameOption none none = Unit {0}
SameOption (some v) (some w) = SameClass v w
SameOption _ _ = ⊥

-- A property of both branches holds of the test.
if_ind :
    (P : WorkflowError → Type 0) (b : Bool) (x y : WorkflowError)
    → P x
    → P y
    → P (if b then x else y)
if_ind P true x y p q = p
if_ind P false x y p q = q

sentinel-stable :
    (w : WorkflowError) (e : Err)
    → SameOption (classify_sentinel_errors (workflow_error_of w e)) (classify_sentinel_errors e)
unfolding classify_sentinel_errors is_sentinel error_text
sentinel-stable w e =
    let same : (t : ErrorType) (c : Bytes) (r : Bool)
        → SameClass (workflow t (workflow_text w) c r) (workflow t (error_text e) c r) =
      λ t c r. record { error_type = refl; code = refl; retryable = refl } in
    elim (Bool-cases (is_sentinel Sentinel.rate_limit_exceeded e)) [
      | inl h0 ↦ rw h0 (same _ _ _)
      | inr h0 ↦ elim (Bool-cases (is_sentinel Sentinel.circuit_breaker_open e)) [
        | inl h1 ↦ rw (h0, h1) (same _ _ _)
        | inr h1 ↦ elim (Bool-cases (is_sentinel Sentinel.provider_unavailable e)) [
          | inl h2 ↦ rw (h0, h1, h2) (same _ _ _)
          | inr h2 ↦ elim (Bool-cases (is_sentinel Sentinel.pricing_unavailable e)) [
            | inl h3 ↦ rw (h0, h1, h2, h3) (same _ _ _)
            | inr h3 ↦ elim (Bool-cases (is_sentinel Sentinel.max_retries_exceeded e)) [
              | inl h4 ↦ rw (h0, h1, h2, h3, h4) (same _ _ _)
              | inr h4 ↦ rw (h0, h1, h2, h3, h4) tt
            ]
          ]
        ]
      ]
    ]

typed-stable :
    (w : WorkflowError) (e : Err)
    → classify_typed_errors (workflow_error_of w e) ≡ classify_typed_errors e
unfolding classify_typed_errors as_provider_error as_rate_limit_error as_circuit_breaker_error
    as_validation_error as_pricing_error
typed-stable w e = refl

-- The text of a classification by text.
abbrev IsFixed : WorkflowError → Type 0
IsFixed w = classify_text (to_lower (workflow_text w)) ≡ w

IsFixed-classify_text : (t : Bytes) → IsFixed (classify_text t)
unfolding classify_text workflow_text error_type_text to_lower contains
IsFixed-classify_text t = if_ind IsFixed _ rate_limited _ refl (
    if_ind IsFixed _ timed_out _ refl (
      if_ind IsFixed _ unauthorized _ refl (
        if_ind IsFixed _ forbidden _ refl (
          if_ind IsFixed _ over_quota _ refl
            (if_ind IsFixed _ disconnected unrecognised refl refl)))))

or_classify-same :
    (t s' s : Option WorkflowError) (d' d : WorkflowError)
    → SameOption s' s
    → (t ≡ none → s ≡ none → SameClass d' d)
    → SameClass (or_classify (or_else t s') d') (or_classify (or_else t s) d)
or_classify-same (some w) s' s d' d p q = SameClass-refl w
or_classify-same none none none d' d p q = q refl refl
or_classify-same none (some v) (some w) d' d p q = p
or_classify-same none none (some w) d' d p q = absurd p
or_classify-same none (some v) none d' d p q = absurd p

-- An error that was classified, whose cause is then the error itself, is classified the same when it
-- is classified again: with the same type, code and advice on retrying. So an error keeps its class
-- when each layer that it passes classifies it.
pub classify_llm_error-stable :
    (e : Err) → SameClass (classify_llm_error (classified e)) (classify_llm_error e)
unfolding classify_llm_error classify_string_pattern_errors error_text
classify_llm_error-stable e =
    let w = classify_llm_error e in
    rw (typed-stable w e) (
      or_classify-same (classify_typed_errors e) _ _ _ _ (sentinel-stable w e)
        (λ no_type no_sentinel.
          let by_text : w ≡ classify_text (to_lower (error_text e)) =
            rw (no_type, no_sentinel) refl in
          rw (by_text, IsFixed-classify_text (to_lower (error_text e))) (SameClass-refl _)))
