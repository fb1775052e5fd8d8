-- ===== src/Errors/Text.antt =====
-- internal/llm/errors/types.go and workflow.go: the `Error()` texts, as bytes.
use go_judgy.Prelude.{
  ℕ, zero, suc, ◌+◌, ◌/◌, ◌%◌, Bool, true, false, ◌&&◌, ◌||◌, [], ◌∷◌, ◌++◌, ltb, leb,
  if◌then◌else◌, ◌==◌,
}
use go_judgy.Prelude.Int.{ℤ, pos, negsuc, ltb_ℤ}
use go_judgy.Prelude.Bytes.{Bytes, bytes, is_empty_text}
use go_judgy.Errors.Types.{
  ErrorType, RateLimitError, CircuitBreakerError, ValidationError, PricingError, WorkflowError,
  Sentinel, Err, provider_error, rate_limit_error, circuit_breaker_error, validation_error,
  pricing_error, workflow_error, workflow_error_of, sentinel, foreign, wrapped, joined,
}

-- `%d`: the decimal digits, put before `rest`; a number has fewer digits than its value plus one.
unfoldable pub show_digits : ℕ → ℕ → Bytes → Bytes
show_digits zero n rest = rest
show_digits (suc fuel) n rest =
    let more = show_digits fuel (n / 10) ((48 + n % 10) ∷ rest) in
    if ltb n 10 then (48 + n) ∷ rest else more

unfoldable pub show_int : ℤ → Bytes
unfolding show_digits
show_int (pos n) = show_digits (suc n) n []
show_int (negsuc n) = b'-' ∷ show_digits (suc (suc n)) (suc n) []

unfoldable pub error_type_text : ErrorType → Bytes
error_type_text ErrorType.timeout = bytes "timeout"
error_type_text ErrorType.rate_limit = bytes "rate_limit"
error_type_text ErrorType.network = bytes "network"
error_type_text ErrorType.provider = bytes "provider_unavailable"
error_type_text ErrorType.circuit_breaker = bytes "circuit_breaker"
error_type_text ErrorType.budget = bytes "budget_exceeded"
error_type_text ErrorType.validation = bytes "validation_failed"
error_type_text ErrorType.content = bytes "content_filtered"
error_type_text ErrorType.auth = bytes "authentication"
error_type_text ErrorType.permission = bytes "permission_denied"
error_type_text ErrorType.quota = bytes "quota_exceeded"
error_type_text ErrorType.pricing_unavailable = bytes "pricing_unavailable"
error_type_text ErrorType.unknown = bytes "unknown"
error_type_text (ErrorType.other t) = t

unfoldable pub sentinel_text : Sentinel → Bytes
sentinel_text Sentinel.provider_unavailable = bytes "provider service unavailable"
sentinel_text Sentinel.rate_limit_exceeded = bytes "rate limit exceeded"
sentinel_text Sentinel.circuit_breaker_open = bytes "circuit breaker open"
sentinel_text Sentinel.pricing_unavailable = bytes "pricing data unavailable"
sentinel_text Sentinel.max_retries_exceeded = bytes "maximum retries exceeded"

unfoldable pub rate_limit_text : RateLimitError → Bytes
rate_limit_text r =
    if ltb_ℤ (pos 0) r.retry_after
    then bytes "rate limit exceeded for "
      ++ (r.provider ++ (bytes ", retry after " ++ (show_int r.retry_after ++ bytes " seconds")))
    else bytes "rate limit exceeded for " ++ r.provider

abbrev code_part : Bytes → Bytes
code_part [] = []
code_part (c ∷ cs) = bytes ":" ++ (c ∷ cs)

-- `[type:code] message`, or `[type] message` without a code.
unfoldable pub workflow_text : WorkflowError → Bytes
workflow_text w =
    bytes "[" ++ (error_type_text w.error_type ++ (code_part w.code ++ (bytes "] " ++ w.message)))

unfoldable pub circuit_breaker_text : CircuitBreakerError → Bytes
circuit_breaker_text c =
    bytes "circuit breaker "
    ++ (c.state ++ (bytes " for " ++ (c.provider ++ (bytes "/" ++ c.model))))

unfoldable pub validation_text : ValidationError → Bytes
validation_text v =
    if is_empty_text v.field
    then bytes "validation failed: " ++ v.message
    else bytes "validation failed for field " ++ (v.field ++ (bytes ": " ++ v.message))

unfoldable pub pricing_text : PricingError → Bytes
pricing_text p =
    let key = p.provider ++ (bytes "/" ++ p.model) in
    bytes "pricing error for "
    ++ ((if is_empty_text p.region then key else key ++ (bytes "/" ++ p.region))
        ++ (bytes ": " ++ p.reason))

unfoldable pub error_text : Err → Bytes
error_text (provider_error p) =
    p.provider
    ++ (bytes " error (status " ++ (show_int p.status_code ++ (bytes "): " ++ p.message)))
error_text (rate_limit_error r) = rate_limit_text r
error_text (circuit_breaker_error c) = circuit_breaker_text c
error_text (validation_error v) = validation_text v
error_text (pricing_error p) = pricing_text p
error_text (workflow_error w) = workflow_text w
error_text (workflow_error_of w cause) = workflow_text w
error_text (sentinel s) = sentinel_text s
error_text (foreign f) = f.text
error_text (wrapped m e) = m
error_text (joined m a b) = m

-- `strings.ToLower` on ASCII.
unfoldable pub to_lower : Bytes → Bytes
to_lower [] = []
to_lower (c ∷ cs) = (if leb b'A' c && leb c b'Z' then c + 32 else c) ∷ to_lower cs

abbrev pub has_prefix : Bytes → Bytes → Bool
has_prefix s [] = true
has_prefix [] (p ∷ ps) = false
has_prefix (c ∷ cs) (p ∷ ps) = c == p && has_prefix cs ps

-- `strings.Contains`.
unfoldable pub contains : Bytes → Bytes → Bool
contains [] p = has_prefix [] p
contains (c ∷ cs) p = has_prefix (c ∷ cs) p || contains cs p
