-- ===== src/Providers/Status.antt =====
-- internal/llm/providers/errors.go and the error parsers of the adapters: the type of a provider error.
use go_judgy.Prelude.{ℕ, Bool, false, ◌||◌, [], Option, none, some, if◌then◌else◌, ◌==◌, ◌≡◌, arith}
use go_judgy.Prelude.Int.{ℤ, pos, negsuc, leb_ℤ}
use go_judgy.Prelude.Bytes.{Bytes, bytes, is_empty_text}
use go_judgy.Errors.Types.{ErrorType, ProviderError, Err, provider_error, is_retryable_type}
use go_judgy.Errors.Text.{to_lower, contains}

abbrev is_status : ℕ → ℤ → Bool
is_status n (pos m) = m == n
is_status n (negsuc m) = false

-- The switch on the status code.
unfoldable status_type : ℤ → ErrorType
status_type code =
    if is_status 429 code
    then ErrorType.rate_limit
    else if is_status 401 code
    then ErrorType.auth
    else if is_status 403 code
    then ErrorType.permission
    else if is_status 408 code || is_status 504 code
    then ErrorType.timeout
    else if is_status 400 code
    then ErrorType.validation
    else if is_status 500 code || (is_status 502 code || is_status 503 code)
    then ErrorType.provider
    else if leb_ℤ (pos 500) code
    then ErrorType.provider
    else ErrorType.unknown

abbrev mentions : Bytes → Bytes → Bool
mentions code word = contains code word

-- `classifyErrorType`; the code of the provider comes first.
unfoldable classify_error_type : ℤ → Bytes → ErrorType
unfolding status_type
classify_error_type status_code error_code =
    let code = to_lower error_code in
    if mentions code (bytes "rate") || mentions code (bytes "limit")
    then ErrorType.rate_limit
    else if mentions code (bytes "timeout")
    then ErrorType.timeout
    else if mentions code (bytes "auth") || mentions code (bytes "unauthorized")
    then ErrorType.auth
    else if mentions code (bytes "permission") || mentions code (bytes "forbidden")
    then ErrorType.permission
    else if mentions code (bytes "quota")
    then ErrorType.quota
    else status_type status_code

-- The error object that a body decodes to, in the form of each provider: message, code, and the text
-- that is classified.
pub record ErrorObject : Type 0 where
  pub message : Bytes
  pub code : Bytes
  pub kind : Bytes

abbrev error_of : Bytes → ℤ → Bytes → ErrorObject → ProviderError
error_of provider status message o = record {
  provider = provider;
  status_code = status;
  message = message;
  code = o.code;
  error_type = classify_error_type status o.kind;
  retry_after = pos 0;
}

abbrev no_object : ErrorObject
no_object = record { message = []; code = []; kind = [] }

-- `parseOpenAIError`: with no decoded message, the body is the message. The object is what the body
-- decodes to, and `none` an error of the decoder.
unfoldable parse_openai_error : ℤ → Bytes → Option ErrorObject → Err
unfolding classify_error_type
parse_openai_error status body none =
    provider_error (error_of (bytes "openai") status body no_object)
parse_openai_error status body (some o) = provider_error (
    if is_empty_text o.message
    then error_of (bytes "openai") status body no_object
    else error_of (bytes "openai") status o.message o)

-- `parseAnthropicError` and `parseGoogleError`, which read other fields into the object.
unfoldable parse_anthropic_error : ℤ → Bytes → Option ErrorObject → Err
unfolding classify_error_type
parse_anthropic_error status body none =
    provider_error (error_of (bytes "anthropic") status body no_object)
parse_anthropic_error status body (some o) = provider_error (
    if is_empty_text o.message
    then error_of (bytes "anthropic") status body no_object
    else error_of (bytes "anthropic") status o.message o)

unfoldable parse_google_error : ℤ → Bytes → Option ErrorObject → Err
unfolding classify_error_type
parse_google_error status body none =
    provider_error (error_of (bytes "google") status body no_object)
parse_google_error status body (some o) = provider_error (
    if is_empty_text o.message
    then error_of (bytes "google") status body no_object
    else error_of (bytes "google") status o.message o)

-- Without a code, an error is retryable exactly for the statuses 408 and 429 and from 500 on.
classify_error_type-retryable :
    (status : ℤ)
    → is_retryable_type (classify_error_type status [])
      ≡ (is_status 408 status || (is_status 429 status || leb_ℤ (pos 500) status))
unfolding classify_error_type status_type to_lower contains
classify_error_type-retryable (negsuc n) = ground arith
classify_error_type-retryable (pos n) = ground arith
