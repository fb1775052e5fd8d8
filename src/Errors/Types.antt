-- ===== src/Errors/Types.antt =====
-- internal/llm/errors/types.go and workflow.go: the error types, and the chains that wrapping
-- (`fmt.Errorf` with `%w`, `Unwrap`) builds, with the searches of `errors.As` and `errors.Is`.
-- A Go `string` is its bytes, an `int` or `int64` a ℤ.
use go_judgy.Prelude.{Bool, true, false, ◌||◌, Option, none, some, if◌then◌else◌}
use go_judgy.Prelude.Int.{ℤ, pos, ltb_ℤ, int64, scale}
use go_judgy.Prelude.Bytes.{Bytes}

-- The constants of `type ErrorType string`; `other` is any further string.
pub data ErrorType : Type 0 where
  timeout rate_limit network provider circuit_breaker budget validation content auth : ErrorType
  permission quota pricing_unavailable unknown : ErrorType
  other : Bytes → ErrorType

pub record ProviderError : Type 0 where
  pub provider : Bytes
  pub status_code : ℤ
  pub message : Bytes
  pub code : Bytes
  pub error_type : ErrorType
  pub retry_after : ℤ

pub record RateLimitError : Type 0 where
  pub provider : Bytes
  pub retry_after : ℤ
  pub reset_at : ℤ
  pub limit : ℤ
  pub remaining : ℤ
  pub local_limit : Bool

pub record CircuitBreakerError : Type 0 where
  pub provider : Bytes
  pub model : Bytes
  pub state : Bytes
  pub reset_at : ℤ

-- The rejected value and the schema are left out: they are only logged.
pub record ValidationError : Type 0 where
  pub field : Bytes
  pub message : Bytes

pub record PricingError : Type 0 where
  pub provider : Bytes
  pub model : Bytes
  pub region : Bytes
  pub reason : Bytes
  pub error_type : ErrorType

-- The fields that decide how a WorkflowError is handled. Of its details only the value under
-- `retry_after` is read by the client, in the form that the reader finds there.
pub data RetryAfterValue : Type 0 where
  seconds : ℤ → RetryAfterValue
  duration : ℤ → RetryAfterValue
  text : Bytes → RetryAfterValue
  unsupported : RetryAfterValue

pub record WorkflowError : Type 0 where
  pub error_type : ErrorType
  pub message : Bytes
  pub code : Bytes
  pub retryable : Bool
  pub retry_after : Option RetryAfterValue

-- The sentinels of types.go that the client compares with `errors.Is`.
pub data Sentinel : Type 0 where
  provider_unavailable rate_limit_exceeded circuit_breaker_open : Sentinel
  pricing_unavailable max_retries_exceeded : Sentinel

-- What `errors.As` and `errors.Is` find in an error of the Go standard library or of another
-- package: the network types (`url_error` by what it wraps: a `net.Error`, or another with its
-- text), or nothing.
pub data Network : Type 0 where
  op_error dns_error : Network
  url_timeout net_error : Bool → Network
  url_error : Bytes → Network
  no_network : Network

pub record Foreign : Type 0 where
  pub text : Bytes
  pub deadline_exceeded : Bool
  pub canceled : Bool
  pub network : Network
  pub retry_after : Option ℤ
  pub status_code : Option ℤ
  -- `errors.As` finds the interface `redis.Error`.
  pub redis : Bool

-- An error value. `wrapped` is `fmt.Errorf` with one `%w` and `joined` with two, each with the
-- formatted text; `workflow_error_of` is a WorkflowError with a cause.
pub data Err : Type 0 where
  provider_error : ProviderError → Err
  rate_limit_error : RateLimitError → Err
  circuit_breaker_error : CircuitBreakerError → Err
  validation_error : ValidationError → Err
  pricing_error : PricingError → Err
  workflow_error : WorkflowError → Err
  workflow_error_of : WorkflowError → Err → Err
  sentinel : Sentinel → Err
  foreign : Foreign → Err
  wrapped : Bytes → Err → Err
  joined : Bytes → Err → Err → Err

-- `errors.New`.
abbrev pub plain_error : Bytes → Err
plain_error message = foreign record {
  text = message;
  deadline_exceeded = false;
  canceled = false;
  network = no_network;
  retry_after = none;
  status_code = none;
  redis = false;
}

-- `errors.As` tries the error itself, then what it unwraps to, the first wrapped error first.
abbrev pub or_else {ℓ} : {A : Type ℓ} → Option A → Option A → Option A
or_else none o = o
or_else (some a) o = some a

unfoldable pub as_provider_error : Err → Option ProviderError
as_provider_error (provider_error p) = some p
as_provider_error (workflow_error_of w cause) = as_provider_error cause
as_provider_error (wrapped m e) = as_provider_error e
as_provider_error (joined m a b) = or_else (as_provider_error a) (as_provider_error b)
as_provider_error _ = none

unfoldable pub as_rate_limit_error : Err → Option RateLimitError
as_rate_limit_error (rate_limit_error r) = some r
as_rate_limit_error (workflow_error_of w cause) = as_rate_limit_error cause
as_rate_limit_error (wrapped m e) = as_rate_limit_error e
as_rate_limit_error (joined m a b) = or_else (as_rate_limit_error a) (as_rate_limit_error b)
as_rate_limit_error _ = none

unfoldable pub as_circuit_breaker_error : Err → Option CircuitBreakerError
as_circuit_breaker_error (circuit_breaker_error c) = some c
as_circuit_breaker_error (workflow_error_of w cause) = as_circuit_breaker_error cause
as_circuit_breaker_error (wrapped m e) = as_circuit_breaker_error e
as_circuit_breaker_error (joined m a b) =
    or_else (as_circuit_breaker_error a) (as_circuit_breaker_error b)
as_circuit_breaker_error _ = none

unfoldable pub as_workflow_error : Err → Option WorkflowError
as_workflow_error (workflow_error w) = some w
as_workflow_error (workflow_error_of w cause) = some w
as_workflow_error (wrapped m e) = as_workflow_error e
as_workflow_error (joined m a b) = or_else (as_workflow_error a) (as_workflow_error b)
as_workflow_error _ = none

abbrev pub is_retryable_type : ErrorType → Bool
is_retryable_type ErrorType.timeout = true
is_retryable_type ErrorType.rate_limit = true
is_retryable_type ErrorType.network = true
is_retryable_type ErrorType.provider = true
is_retryable_type _ = false

-- `(*ProviderError).IsRetryable`.
unfoldable pub is_retryable : ProviderError → Bool
is_retryable e = is_retryable_type e.error_type

-- `GetRetryAfter` of a ProviderError and of a RateLimitError: nanoseconds.
unfoldable pub seconds_or_zero : ℤ → ℤ
seconds_or_zero n = if ltb_ℤ (pos 0) n then int64 (scale 1000000000 n) else pos 0

-- `errors.As` with the interface AfterProvider, and the answer of what it finds.
unfoldable pub as_after_provider : Err → Option ℤ
unfolding seconds_or_zero
as_after_provider (provider_error p) = some (seconds_or_zero p.retry_after)
as_after_provider (rate_limit_error r) = some (seconds_or_zero r.retry_after)
as_after_provider (foreign f) = f.retry_after
as_after_provider (workflow_error_of w cause) = as_after_provider cause
as_after_provider (wrapped m e) = as_after_provider e
as_after_provider (joined m a b) = or_else (as_after_provider a) (as_after_provider b)
as_after_provider _ = none

-- `errors.Is(err, context.DeadlineExceeded)`.
unfoldable pub is_deadline_exceeded : Err → Bool
is_deadline_exceeded (foreign f) = f.deadline_exceeded
is_deadline_exceeded (workflow_error_of w cause) = is_deadline_exceeded cause
is_deadline_exceeded (wrapped m e) = is_deadline_exceeded e
is_deadline_exceeded (joined m a b) = is_deadline_exceeded a || is_deadline_exceeded b
is_deadline_exceeded _ = false
