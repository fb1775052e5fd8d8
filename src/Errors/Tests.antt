-- ===== src/Errors/Tests.antt =====
-- internal/llm/errors: runs on small inputs, and each theorem at an input that meets its hypotheses.
use go_judgy.Prelude.{◌≡◌, refl, true, false, none, some}
use go_judgy.Prelude.Int.{pos}
use go_judgy.Prelude.Bytes.{bytes}
use go_judgy.Errors.Types.{
  Err, foreign, no_network, as_provider_error, as_rate_limit_error, as_circuit_breaker_error,
  as_workflow_error,
}
use go_judgy.Errors.Text.{error_text, to_lower, contains}
use go_judgy.Errors.Classify.{
  as_validation_error, as_pricing_error, is_sentinel, classify_typed_errors,
  classify_sentinel_errors, classify_text, classify_string_pattern_errors, classify_llm_error,
  classified, forbidden, is_retryable_error,
}
use go_judgy.Errors.Stability.{SameClass, classify_llm_error-stable}

abbrev denied : Err
denied = foreign record {
  text = bytes "403 Forbidden";
  deadline_exceeded = false;
  canceled = false;
  network = no_network;
  retry_after = none;
  status_code = some (pos 403);
  redis = false;
}

classify_denied : classify_llm_error denied ≡ forbidden
unfolding classify_llm_error classify_typed_errors classify_sentinel_errors
    classify_string_pattern_errors classify_text as_provider_error as_rate_limit_error
    as_circuit_breaker_error as_validation_error as_pricing_error is_sentinel error_text to_lower
    contains
classify_denied = refl

classify_llm_error-stable_example :
    SameClass (classify_llm_error (classified denied)) (classify_llm_error denied)
classify_llm_error-stable_example = classify_llm_error-stable denied

-- 503 is tried again and 403 is not.
retries_unavailable :
    is_retryable_error (
      foreign (record {
        text = bytes "503 Service Unavailable";
        deadline_exceeded = false;
        canceled = false;
        network = no_network;
        retry_after = none;
        status_code = some (pos 503);
        redis = false;
      }))
    ≡ true
unfolding is_retryable_error as_workflow_error as_provider_error is_sentinel
retries_unavailable = refl
