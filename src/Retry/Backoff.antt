-- ===== src/Retry/Backoff.antt =====
-- internal/llm/retry/backoff.go and middleware.go: how long to wait before the next attempt.
-- `rand.Int64N` is an argument, and so is what `strconv` and `time` make of a retry-after text.
use go_judgy.Prelude.{ℕ, zero, suc, Option, none, some, if◌then◌else◌}
use go_judgy.Prelude.Int.{ℤ, pos, ◌+ℤ◌, leb_ℤ, ltb_ℤ, int64, scale, div_trunc}
use go_judgy.Prelude.Bytes.{Bytes}
use go_judgy.Errors.Types.{
  Err, WorkflowError, RateLimitError, ProviderError, RetryAfterValue, seconds, duration, text,
  unsupported, as_after_provider, as_workflow_error, as_provider_error, as_rate_limit_error,
}
use go_judgy.Floats.{Floats}
use go_judgy.Retry.Config.{RetryConfig}

abbrev pub millisecond : ℕ
millisecond = 1000000

abbrev pub second : ℕ
second = 1000000000

-- The `string` case of `parseRetryAfterValue`: a number of seconds, else the time until a date, and
-- 0 for a date that has passed. `atoi` is `strconv.Atoi` and `until_date` is `time.Until` of the
-- first of the layouts that `time.Parse` accepts. The functions below take the result.
unfoldable pub parse_text_with : (Bytes → Option ℤ) → (Bytes → Option ℤ) → Bytes → ℤ
unfolding scale
parse_text_with atoi until_date t = elim (atoi t) [
  | some n ↦ int64 (scale second n)
  | none ↦ elim (until_date t) [ some d ↦ if ltb_ℤ d (pos 0) then pos 0 else d | none ↦ pos 0 ]
]

unfoldable pub parse_retry_after_value : (Bytes → ℤ) → RetryAfterValue → ℤ
unfolding scale
parse_retry_after_value parse_text (seconds n) = int64 (scale second n)
parse_retry_after_value parse_text (duration d) = d
parse_retry_after_value parse_text (text t) = parse_text t
parse_retry_after_value parse_text unsupported = pos 0

-- The last two steps of `extractRetryAfter`, on what `errors.As` found.
abbrev workflow_retry_after : (Bytes → ℤ) → Option WorkflowError → ℤ
workflow_retry_after parse_text none = pos 0
workflow_retry_after parse_text (some w) = elim w.retry_after [
  | none ↦ pos 0
  | some v ↦ parse_retry_after_value parse_text v
]

abbrev provider_retry_after : ℤ → Option ProviderError → ℤ
provider_retry_after rest none = rest
provider_retry_after rest (some p) =
    if ltb_ℤ (pos 0) p.retry_after then int64 (scale second p.retry_after) else rest

abbrev rate_limit_retry_after : ℤ → Option RateLimitError → ℤ
rate_limit_retry_after rest none = rest
rate_limit_retry_after rest (some r) =
    if ltb_ℤ (pos 0) r.retry_after then int64 (scale second r.retry_after) else rest

abbrev first_retry_after : ℤ → Option ℤ → ℤ
first_retry_after rest none = rest
first_retry_after rest (some d) = d

unfoldable pub extract_retry_after : (Bytes → ℤ) → Err → ℤ
unfolding scale
extract_retry_after parse_text e =
    first_retry_after
      (rate_limit_retry_after
        (provider_retry_after (workflow_retry_after parse_text (as_workflow_error e))
          (as_provider_error e))
        (as_rate_limit_error e))
      (as_after_provider e)

-- `time.Duration(rand.Int64N(d.Milliseconds()+1)) * time.Millisecond`.
unfoldable pub full_jitter : (ℤ → ℤ) → ℤ → ℤ
unfolding scale div_trunc
full_jitter int64n d = int64 (scale millisecond (int64n (int64 (div_trunc d millisecond +ℤ pos 1))))

module _ (F : Floats) where
  open F use {Float, one_float, lt_float, scale_duration}

  -- The loop of the exponential backoff: n more multiplications, until the maximum is passed.
  unfoldable pub grow : RetryConfig F → Float → ℕ → ℤ → ℤ
  grow cfg multiplier zero base = base
  grow cfg multiplier (suc n) base =
      let next = scale_duration base multiplier in
      let rest = grow cfg multiplier n next in
      if ltb_ℤ cfg.max_interval next then cfg.max_interval else rest

  abbrev pub at_least_one : Float → Float
  at_least_one m = if lt_float m one_float then one_float else m

  abbrev pub positive_interval : ℤ → ℤ
  positive_interval d = if leb_ℤ d (pos 0) then pos millisecond else d

  abbrev pub jittered : RetryConfig F → (ℤ → ℤ) → ℤ → ℤ
  jittered cfg int64n base = if cfg.use_jitter then full_jitter int64n base else base

  -- The exponential part of `calculateBackoff`, where `rounds` is the attempt less one.
  unfoldable pub exponential : RetryConfig F → ℕ → ℤ
  exponential cfg rounds =
      grow cfg (at_least_one cfg.multiplier) rounds (positive_interval cfg.initial_interval)

  unfoldable pub calculate_backoff : RetryConfig F → (Bytes → ℤ) → (ℤ → ℤ) → ℕ → Err → ℤ
  calculate_backoff cfg parse_text int64n rounds e =
      let retry_after = extract_retry_after parse_text e in
      if ltb_ℤ (pos 0) retry_after
      then retry_after
      else jittered cfg int64n (exponential cfg rounds)

  unfoldable pub calculate_pure_exponential_backoff : RetryConfig F → (ℤ → ℤ) → ℕ → ℤ
  calculate_pure_exponential_backoff cfg int64n rounds =
      jittered cfg int64n (grow cfg cfg.multiplier rounds cfg.initial_interval)

  -- `validateBackoffWithTimeout`; `none` for "do not continue".
  unfoldable pub validate_backoff :
      RetryConfig F → (Bytes → ℤ) → (ℤ → ℤ) → ℤ → ℤ → ℕ → Err → Option ℤ
  validate_backoff cfg parse_text int64n backoff elapsed rounds e =
      if leb_ℤ cfg.max_elapsed_time (pos 0)
      then some backoff
      else if leb_ℤ (int64 (elapsed +ℤ backoff)) cfg.max_elapsed_time
      then some backoff
      else if ltb_ℤ (pos 0) (extract_retry_after parse_text e)
      then (let fallback = calculate_pure_exponential_backoff cfg int64n rounds in
          if leb_ℤ (int64 (elapsed +ℤ fallback)) cfg.max_elapsed_time then some fallback else none)
      else none

  -- The loop of the standalone `ExponentialBackoff`, which returns the maximum with no jitter.
  unfoldable pub standalone : RetryConfig F → (ℤ → ℤ) → ℕ → ℤ → ℤ
  standalone cfg int64n zero base = jittered cfg int64n base
  standalone cfg int64n (suc n) base =
      let next = scale_duration base cfg.multiplier in
      let rest = standalone cfg int64n n next in
      if ltb_ℤ cfg.max_interval next then cfg.max_interval else rest

  -- `ExponentialBackoff`; an attempt below 1 counts as 0.
  unfoldable pub exponential_backoff : RetryConfig F → (ℤ → ℤ) → ℕ → ℤ
  unfolding standalone
  exponential_backoff cfg int64n zero = pos 0
  exponential_backoff cfg int64n (suc rounds) = standalone cfg int64n rounds cfg.initial_interval
