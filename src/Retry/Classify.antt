-- ===== src/Retry/Classify.antt =====
-- internal/llm/retry/middleware.go: which errors are tried again.
use go_judgy.Prelude.{Bool, true, false, ◌||◌, Option, none, some, List, [], ◌∷◌, ◌++◌}
use go_judgy.Prelude.Int.{ℤ}
use go_judgy.Prelude.Bytes.{Bytes, bytes}
use go_judgy.Errors.Types.{
  Err, CircuitBreakerError, RateLimitError, ProviderError, WorkflowError, Network, op_error,
  dns_error, url_timeout, url_error, net_error, workflow_error_of, foreign, wrapped, joined,
  or_else, as_circuit_breaker_error, as_rate_limit_error, as_provider_error, as_workflow_error,
  as_after_provider, is_deadline_exceeded, is_retryable,
}
use go_judgy.Errors.Text.{error_text, to_lower, contains}

unfoldable pub network_error_indicators : List Bytes
network_error_indicators =
    bytes "connection refused"
    ∷ bytes "connection reset"
    ∷ bytes "broken pipe"
    ∷ bytes "no such host"
    ∷ bytes "network is unreachable"
    ∷ bytes "i/o timeout"
    ∷ bytes "eof"
    ∷ []

abbrev pub contains_any : Bytes → List Bytes → Bool
contains_any s [] = false
contains_any s (p ∷ ps) = contains s p || contains_any s ps

-- `isNetworkErrorByString`.
unfoldable pub is_network_error_by_string : Bytes → Bool
unfolding network_error_indicators
is_network_error_by_string s = contains_any (to_lower s) network_error_indicators

-- What `errors.As` finds in an error with each of the network types as target.
abbrev pub networks : Err → List Network
networks (foreign f) = f.network ∷ []
networks (workflow_error_of w cause) = networks cause
networks (wrapped m e) = networks e
networks (joined m a b) = networks a ++ networks b
networks _ = []

abbrev has_op_error : List Network → Bool
has_op_error [] = false
has_op_error (op_error ∷ ns) = true
has_op_error (_ ∷ ns) = has_op_error ns

abbrev has_dns_error : List Network → Bool
has_dns_error [] = false
has_dns_error (dns_error ∷ ns) = true
has_dns_error (_ ∷ ns) = has_dns_error ns

-- The answer for the first `*url.Error`.
abbrev first_url_error : List Network → Option Bool
first_url_error [] = none
first_url_error (url_timeout t ∷ ns) = some t
first_url_error (url_error s ∷ ns) = some (is_network_error_by_string s)
first_url_error (_ ∷ ns) = first_url_error ns

-- The answer for the first `net.Error` when none of the types before it was found.
abbrev first_net_error : List Network → Option Bool
first_net_error [] = none
first_net_error (net_error t ∷ ns) = some t
first_net_error (_ ∷ ns) = first_net_error ns

abbrev or_by_string : Err → Option Bool → Bool
or_by_string e none = is_network_error_by_string (error_text e)
or_by_string e (some b) = b

unfoldable pub is_network_error : Err → Bool
is_network_error e =
    has_op_error (networks e)
    || (has_dns_error (networks e)
        || or_by_string e (or_else (first_url_error (networks e)) (first_net_error (networks e))))

-- The steps of `isRetryable`, each on what its `errors.As` found.
abbrev retryable_by_interface : Option ℤ → Bool
retryable_by_interface none = false
retryable_by_interface (some d) = true

abbrev retryable_by_kind : Err → Option WorkflowError → Bool
retryable_by_kind e none =
    is_deadline_exceeded e || (is_network_error e || retryable_by_interface (as_after_provider e))
retryable_by_kind e (some w) = w.retryable

abbrev retryable_by_provider : Bool → Option ProviderError → Bool
retryable_by_provider rest none = rest
retryable_by_provider rest (some p) = is_retryable p

abbrev retryable_by_limit : Bool → Option RateLimitError → Bool
retryable_by_limit rest none = rest
retryable_by_limit rest (some r) = true

abbrev retryable_by_breaker : Bool → Option CircuitBreakerError → Bool
retryable_by_breaker rest none = rest
retryable_by_breaker rest (some c) = false

-- `isRetryable` of an error that is not nil.
unfoldable pub should_retry : Err → Bool
should_retry e =
    retryable_by_breaker
      (retryable_by_limit
        (retryable_by_provider (retryable_by_kind e (as_workflow_error e)) (as_provider_error e))
        (as_rate_limit_error e))
      (as_circuit_breaker_error e)
