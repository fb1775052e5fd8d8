-- ===== src/Retry/Tests.antt =====
-- internal/llm/retry: runs on small inputs, and each theorem at an input that meets its hypotheses.
use go_judgy.Prelude.{
  ℕ, zero, suc, ◌+◌, ◌≤◌, ◌<◌, ◌≡◌, refl, inl, inr, ◌||◌, subst, ap, true, false, none, some, [],
  ◌∷◌, arith,
}
use go_judgy.Prelude.Int.{ℤ, pos, negsuc, ◌+ℤ◌, ◌≤ℤ◌, scale, int64}
use go_judgy.Prelude.Bytes.{Bytes, bytes}
use go_judgy.Errors.Types.{
  plain_error, Err, ErrorType, provider_error, rate_limit_error, RateLimitError, as_provider_error,
  as_rate_limit_error, as_circuit_breaker_error, as_workflow_error, is_retryable,
  is_deadline_exceeded, as_after_provider,
}
use go_judgy.Errors.Text.{error_text, to_lower, contains}
use go_judgy.Transport.{Request, op_generation, half_open_probe_key, Reply}
use go_judgy.Floats.Whole.{whole}
use go_judgy.Retry.Config.{RetryConfig, validate_config}
use go_judgy.Retry.Classify.{
  should_retry, is_network_error, is_network_error_by_string, network_error_indicators,
}
use go_judgy.Retry.Backoff.{
  exponential, grow, extract_retry_after, calculate_backoff, validate_backoff,
}
use go_judgy.Retry.Bounds.{NeverShrinks, DrawsBelow}
use go_judgy.Retry.Waiting.{calculate_backoff_bounds}
use go_judgy.Retry.Stats.{no_stats}
use go_judgy.Retry.Loop.{Round, handle, exhausted_error}
use go_judgy.Retry.Attempts.{counted, calls-handle}
use go_judgy.Retry.Script.{scripted, is_transient, answer_at, response_seen}
use go_judgy.Errors.Classify.{classify_llm_error}
use go_judgy.Retry.Agreement.{IsTyped, of_breaker, all_transient, classify_llm_error-handle}
use go_judgy.Retry.Outcome.{handle-first, handle-exhausted, handle-probe}

abbrev cfg : RetryConfig whole
cfg = record {
  max_attempts = pos 3;
  max_elapsed_time = pos 0;
  initial_interval = pos 2000000;
  max_interval = pos 10000000;
  multiplier = 2;
  use_jitter = false;
  max_cost_cents = pos 0;
  max_tokens = pos 0;
  enable_budget = false;
}

abbrev limited : RetryConfig whole
limited = record cfg { max_elapsed_time = pos 20000000; use_jitter = true }

abbrev no_text : Bytes → ℤ
no_text t = pos 0

abbrev least : ℤ → ℤ
least n = pos 0

abbrev flaky : Err
flaky = plain_error (bytes "read: connection reset by peer")

abbrev rejected : Err
rejected = provider_error record {
  provider = bytes "openai";
  status_code = pos 401;
  message = bytes "bad key";
  code = [];
  error_type = ErrorType.auth;
  retry_after = pos 0;
}

abbrev request : Request
request = record {
  operation = op_generation;
  provider = bytes "openai";
  model = bytes "gpt-4";
  tenant_id = bytes "t";
  question = bytes "?";
  max_tokens = pos 10;
  seed = none;
  system_prompt = [];
  timeout = pos 0;
  idempotency_key = [];
  trace_id = [];
  metadata = [];
}

abbrev calm : ℕ → Round
calm i = record {
  elapsed_before = pos 0;
  elapsed_after = pos 0;
  draw = least;
  draw_again = least;
  cancelled = none;
}

-- Two transient failures, then a rejection.
abbrev script : ℕ → Reply
script zero = (none, some flaky)
script (suc zero) = (none, some flaky)
script (suc (suc k)) = (none, some rejected)

abbrev always_flaky : ℕ → Reply
always_flaky k = (none, some flaky)

exponential_test : exponential whole cfg 1 ≡ pos 4000000
unfolding exponential grow scale
exponential_test = refl

exponential_caps : exponential whole cfg 5 ≡ pos 10000000
unfolding exponential grow scale
exponential_caps = refl

flaky-should_retry : should_retry flaky ≡ true
unfolding should_retry is_network_error is_network_error_by_string network_error_indicators
    as_provider_error as_rate_limit_error as_circuit_breaker_error as_workflow_error
    is_deadline_exceeded as_after_provider error_text to_lower contains
flaky-should_retry = refl

rejected-should_retry : should_retry rejected ≡ false
unfolding should_retry as_provider_error as_rate_limit_error as_circuit_breaker_error
    as_workflow_error is_retryable
rejected-should_retry = refl

doubling : NeverShrinks whole cfg 2
unfolding scale
doubling (pos d) _ _ = omega arith
doubling (negsuc d) nonneg _ = omega (arith, nonneg)

least-DrawsBelow : DrawsBelow least
least-DrawsBelow n h = (omega arith, omega arith)

unguided : extract_retry_after no_text flaky ≡ pos 0
unfolding extract_retry_after as_provider_error as_rate_limit_error as_workflow_error
    as_after_provider
unguided = refl

calculate_backoff_bounds_example :
    (pos 0 ≤ℤ calculate_backoff whole cfg no_text least 1 flaky)
    × (calculate_backoff whole cfg no_text least 1 flaky ≤ℤ exponential whole cfg 1)
    × (cfg.initial_interval ≤ℤ exponential whole cfg 1)
    × (exponential whole cfg 1 ≤ℤ exponential whole cfg 2)
    × (exponential whole cfg 1 ≤ℤ cfg.max_interval)
unfolding validate_config
calculate_backoff_bounds_example =
    calculate_backoff_bounds whole cfg no_text least 1 flaky refl (omega arith) doubling
      least-DrawsBelow (rw unguided (omega arith))

accepts :
    validate_backoff whole limited no_text least (pos 4000000) (pos 1000000) 1 flaky
    ≡ some (pos 4000000)
unfolding validate_backoff int64 ◌+ℤ◌
accepts = refl

calls-handle_example :
    (handle whole cfg no_text
      (counted (scripted script))
      calm
      none
      []
      request
      (no_stats, (0, 0))).0.1.1
    ≤ 0 + 3
calls-handle_example =
    calls-handle whole cfg no_text (scripted script) calm none [] request no_stats 0 0 (omega arith)

script_transient : (i : ℕ) → i < 2 → is_transient (script i) ≡ true
unfolding is_transient
script_transient zero _ = flaky-should_retry
script_transient (suc zero) _ = flaky-should_retry
script_transient (suc (suc i)) h = ground (arith, h)

handle-first_example :
    ((handle whole cfg no_text (scripted script) calm none [] request (no_stats, 0)).0.1 ≡ 3)
    × ((handle whole cfg no_text (scripted script) calm none [] request (no_stats, 0)).1
        ≡ (none, some rejected))
unfolding is_transient answer_at response_seen
handle-first_example =
    handle-first whole cfg no_text script refl [] request calm no_stats 2 refl (λ i. refl)
      script_transient rejected-should_retry (omega arith)

handle-exhausted_example :
    ((handle whole cfg no_text (scripted always_flaky) calm none [] request (no_stats, 0)).0.1 ≡ 3)
    × ((handle whole cfg no_text (scripted always_flaky) calm none [] request (no_stats, 0)).1
        ≡ (none, some (exhausted_error (pos 3) flaky)))
unfolding is_transient response_seen
handle-exhausted_example =
    handle-exhausted whole cfg no_text always_flaky refl [] request calm no_stats 2 flaky refl
      (λ i. refl) (λ i _. flaky-should_retry) refl refl

handle-probe_example :
    (handle whole cfg no_text
      (scripted always_flaky)
      calm
      none
      (half_open_probe_key ∷ [])
      request
      (no_stats, 0)).0.1
    ≡ 3
unfolding is_transient
handle-probe_example =
    handle-probe whole cfg no_text always_flaky refl request calm no_stats 2 flaky refl (λ i. refl)
      (λ i _. flaky-should_retry) refl refl

-- A provider that refuses every call for its limit.
abbrev throttle : RateLimitError
throttle = record {
  provider = bytes "openai";
  retry_after = pos 0;
  reset_at = pos 0;
  limit = pos 10;
  remaining = pos 0;
  local_limit = false;
}

abbrev throttled : ℕ → Reply
throttled k = (none, some (rate_limit_error throttle))

throttled-IsTyped : (i : ℕ) (e : Err) → (throttled i).1 ≡ some e → IsTyped e
unfolding as_provider_error as_rate_limit_error as_circuit_breaker_error
throttled-IsTyped i e h =
    let same : rate_limit_error throttle ≡ e = cc h in
    subst IsTyped same (inr (inl (throttle, refl, refl, refl)))

throttled-should_retry : should_retry (rate_limit_error throttle) ≡ true
unfolding should_retry as_provider_error as_rate_limit_error as_circuit_breaker_error
throttled-should_retry = refl

-- All three attempts are used up.
classify_llm_error-handle_example :
    (classify_llm_error (exhausted_error (pos 3) (rate_limit_error throttle))).retryable ≡ (
      all_transient throttled 3 || of_breaker (exhausted_error (pos 3) (rate_limit_error throttle)))
unfolding is_transient
classify_llm_error-handle_example =
    classify_llm_error-handle whole cfg no_text throttled refl throttled-IsTyped [] request calm
      no_stats 2 (exhausted_error (pos 3) (rate_limit_error throttle)) refl (λ i. refl) refl
      (ap (λ r. r.1)
        (handle-exhausted whole cfg no_text throttled refl [] request calm no_stats 2
          (rate_limit_error throttle) refl (λ i. refl) (λ i _. throttled-should_retry) refl refl).1)
