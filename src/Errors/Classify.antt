-- ===== src/Errors/Classify.antt =====
-- internal/llm/errors/classification.go and types.go: what the errors of the client become for the
-- workflow, and the questions that its callers ask.
use go_judgy.Prelude.{Bool, true, false, ◌||◌, Option, none, some, if◌then◌else◌, leb, ◌==◌}
use go_judgy.Prelude.Int.{ℤ, pos}
use go_judgy.Prelude.Bytes.{Bytes, bytes}
use go_judgy.Errors.Types.{
  ErrorType, ProviderError, RateLimitError, CircuitBreakerError, ValidationError, PricingError,
  WorkflowError, Sentinel, Err, validation_error, pricing_error, workflow_error_of, sentinel,
  foreign, wrapped, joined, or_else, seconds, as_provider_error, as_rate_limit_error,
  as_circuit_breaker_error, as_workflow_error, is_retryable,
}
use go_judgy.Errors.Text.{
  error_text, to_lower, contains, rate_limit_text, circuit_breaker_text, validation_text,
  pricing_text,
}

unfoldable pub as_validation_error : Err → Option ValidationError
as_validation_error (validation_error v) = some v
as_validation_error (workflow_error_of w cause) = as_validation_error cause
as_validation_error (wrapped m e) = as_validation_error e
as_validation_error (joined m a b) = or_else (as_validation_error a) (as_validation_error b)
as_validation_error _ = none

unfoldable pub as_pricing_error : Err → Option PricingError
as_pricing_error (pricing_error p) = some p
as_pricing_error (workflow_error_of w cause) = as_pricing_error cause
as_pricing_error (wrapped m e) = as_pricing_error e
as_pricing_error (joined m a b) = or_else (as_pricing_error a) (as_pricing_error b)
as_pricing_error _ = none

abbrev pub same_sentinel : Sentinel → Sentinel → Bool
same_sentinel Sentinel.provider_unavailable Sentinel.provider_unavailable = true
same_sentinel Sentinel.rate_limit_exceeded Sentinel.rate_limit_exceeded = true
same_sentinel Sentinel.circuit_breaker_open Sentinel.circuit_breaker_open = true
same_sentinel Sentinel.pricing_unavailable Sentinel.pricing_unavailable = true
same_sentinel Sentinel.max_retries_exceeded Sentinel.max_retries_exceeded = true
same_sentinel _ _ = false

-- `errors.Is(err, target)` for a sentinel.
unfoldable pub is_sentinel : Sentinel → Err → Bool
is_sentinel t (sentinel s) = same_sentinel s t
is_sentinel t (workflow_error_of w cause) = is_sentinel t cause
is_sentinel t (wrapped m e) = is_sentinel t e
is_sentinel t (joined m a b) = is_sentinel t a || is_sentinel t b
is_sentinel t _ = false

-- A WorkflowError without details; `err` is its cause, which `classified` below keeps beside it.
abbrev pub workflow : ErrorType → Bytes → Bytes → Bool → WorkflowError
workflow t message code retryable = record {
  error_type = t;
  message = message;
  code = code;
  retryable = retryable;
  retry_after = none;
}

-- The five steps of `classifyTypedErrors`, each on what its `errors.As` found.
abbrev pub of_provider : Option WorkflowError → Option ProviderError → Option WorkflowError
of_provider rest none = rest
of_provider rest (some p) = some (workflow p.error_type p.message p.code (is_retryable p))

abbrev pub of_rate_limit : Option WorkflowError → Option RateLimitError → Option WorkflowError
of_rate_limit rest none = rest
of_rate_limit rest (some r) = some record {
  error_type = ErrorType.rate_limit;
  message = rate_limit_text r;
  code = bytes "RATE_LIMIT";
  retryable = true;
  retry_after = some (seconds r.retry_after);
}

abbrev pub of_circuit_breaker :
    Option WorkflowError → Option CircuitBreakerError → Option WorkflowError
of_circuit_breaker rest none = rest
of_circuit_breaker rest (some c) =
    some
      (workflow ErrorType.circuit_breaker (circuit_breaker_text c) (bytes "CIRCUIT_BREAKER") true)

abbrev pub of_validation : Option WorkflowError → Option ValidationError → Option WorkflowError
of_validation rest none = rest
of_validation rest (some v) =
    some (workflow ErrorType.validation (validation_text v) (bytes "VALIDATION") false)

abbrev pub of_pricing : Option PricingError → Option WorkflowError
of_pricing none = none
of_pricing (some p) = some (workflow p.error_type (pricing_text p) (bytes "PRICING") false)

unfoldable pub classify_typed_errors : Err → Option WorkflowError
classify_typed_errors e =
    of_provider
      (of_rate_limit
        (of_circuit_breaker
          (of_validation (of_pricing (as_pricing_error e)) (as_validation_error e))
          (as_circuit_breaker_error e))
        (as_rate_limit_error e))
      (as_provider_error e)

unfoldable pub classify_sentinel_errors : Err → Option WorkflowError
classify_sentinel_errors e =
    if is_sentinel Sentinel.rate_limit_exceeded e
    then some (workflow ErrorType.rate_limit (error_text e) (bytes "RATE_LIMIT") true)
    else if is_sentinel Sentinel.circuit_breaker_open e
    then some (workflow ErrorType.circuit_breaker (error_text e) (bytes "CIRCUIT_BREAKER") true)
    else if is_sentinel Sentinel.provider_unavailable e
    then some (workflow ErrorType.provider (error_text e) (bytes "PROVIDER_UNAVAILABLE") true)
    else if is_sentinel Sentinel.pricing_unavailable e
    then some
        (workflow ErrorType.pricing_unavailable (error_text e) (bytes "PRICING_UNAVAILABLE") false)
    else if is_sentinel Sentinel.max_retries_exceeded e
    then some (workflow ErrorType.provider (error_text e) (bytes "MAX_RETRIES") false)
    else none

-- The results of the text patterns.
abbrev pub rate_limited : WorkflowError
rate_limited = workflow ErrorType.rate_limit (bytes "Rate limit exceeded") (bytes "RATE_LIMIT") true

abbrev pub timed_out : WorkflowError
timed_out = workflow ErrorType.timeout (bytes "Request timeout") (bytes "TIMEOUT") true

abbrev pub unauthorized : WorkflowError
unauthorized = workflow ErrorType.auth (bytes "Authentication failed") (bytes "AUTH_FAILED") false

abbrev pub forbidden : WorkflowError
forbidden =
    workflow ErrorType.permission (bytes "Permission denied") (bytes "PERMISSION_DENIED") false

abbrev pub over_quota : WorkflowError
over_quota = workflow ErrorType.quota (bytes "Quota exceeded") (bytes "QUOTA_EXCEEDED") false

abbrev pub disconnected : WorkflowError
disconnected = workflow ErrorType.network (bytes "Network error") (bytes "NETWORK_ERROR") true

abbrev pub unrecognised : WorkflowError
unrecognised = workflow ErrorType.unknown (bytes "Unknown error") (bytes "UNKNOWN") false

-- The switch of `classifyStringPatternErrors` on the lower-case text.
unfoldable pub classify_text : Bytes → WorkflowError
classify_text t =
    if contains t (bytes "rate limit")
    then rate_limited
    else if contains t (bytes "timeout") || contains t (bytes "deadline")
    then timed_out
    else if contains t (bytes "unauthorized") || contains t (bytes "authentication")
    then unauthorized
    else if contains t (bytes "forbidden") || contains t (bytes "permission")
    then forbidden
    else if contains t (bytes "quota")
    then over_quota
    else if contains t (bytes "network") || contains t (bytes "connection")
    then disconnected
    else unrecognised

unfoldable pub classify_string_pattern_errors : Err → WorkflowError
classify_string_pattern_errors e = classify_text (to_lower (error_text e))

abbrev pub or_classify : Option WorkflowError → WorkflowError → WorkflowError
or_classify none w = w
or_classify (some v) w = v

-- `ClassifyLLMError` of an error that is not nil.
unfoldable pub classify_llm_error : Err → WorkflowError
classify_llm_error e =
    or_classify (or_else (classify_typed_errors e) (classify_sentinel_errors e))
      (classify_string_pattern_errors e)

-- The error value that it returns: the classification with the error as its cause.
abbrev pub classified : Err → Err
classified e = workflow_error_of (classify_llm_error e) e

-- The code of an `err.(statusCoder)`, which does not look into wrapped errors.
abbrev pub status_of : Err → Option ℤ
status_of (foreign f) = f.status_code
status_of _ = none

abbrev pub is_retryable_status : ℤ → Bool
is_retryable_status (pos c) = c == 429 || (c == 408 || (c == 504 || leb 500 c))
is_retryable_status _ = false

abbrev pub retryable_status : Option ℤ → Bool
retryable_status none = false
retryable_status (some c) = is_retryable_status c

-- `IsRetryableError` of an error that is not nil.
unfoldable pub is_retryable_error : Err → Bool
is_retryable_error e = elim (as_workflow_error e) [
  | some w ↦ w.retryable
  | none ↦ elim (as_provider_error e) [
    | some p ↦ is_retryable p
    | none ↦
        is_sentinel Sentinel.rate_limit_exceeded e
        || (is_sentinel Sentinel.circuit_breaker_open e
            || (is_sentinel Sentinel.provider_unavailable e || retryable_status (status_of e)))
  ]
]

abbrev pub is_rate_limit_type : ErrorType → Bool
is_rate_limit_type ErrorType.rate_limit = true
is_rate_limit_type _ = false

-- `IsRateLimitError` of an error that is not nil.
unfoldable pub is_rate_limit_error : Err → Bool
is_rate_limit_error e = elim (as_rate_limit_error e) [
  | some r ↦ true
  | none ↦ elim (as_workflow_error e) [
    | some w ↦ is_rate_limit_type w.error_type
    | none ↦ elim (as_provider_error e) [
      | some p ↦ is_rate_limit_type p.error_type
      | none ↦ is_sentinel Sentinel.rate_limit_exceeded e
    ]
  ]
]

-- `GetRetryAfter` of an error that is not nil: seconds.
unfoldable pub get_retry_after : Err → ℤ
get_retry_after e = elim (as_rate_limit_error e) [
  | some r ↦ r.retry_after
  | none ↦ elim (as_provider_error e) [ some p ↦ p.retry_after | none ↦ pos 0 ]
]
