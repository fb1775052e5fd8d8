-- ===== src/Retry/Agreement.antt =====
-- internal/llm/retry/middleware.go and internal/llm/errors/classification.go: the error that the retry
-- middleware returns, and what its classification advises the workflow to do.
use go_judgy.Prelude.{
  ℕ, zero, suc, ◌<◌, ◌≡◌, refl, sym, ap, ◌∙◌, subst, ◌⊎◌, inl, inr, Bool, true, false, ◌&&◌, ◌||◌,
  Option, none, some, is_some, arith, ltb, ltb→lt, Bool-cases,
}
use go_judgy.Prelude.Int.{ℤ, pos}
use go_judgy.Prelude.Bytes.{Bytes}
use go_judgy.Errors.Types.{
  Err, ProviderError, RateLimitError, CircuitBreakerError, as_provider_error, as_rate_limit_error,
  as_circuit_breaker_error, is_retryable,
}
use go_judgy.Errors.Classify.{classify_typed_errors, classify_llm_error}
use go_judgy.Transport.{Request, Response, Context, Reply}
use go_judgy.Floats.{Floats}
use go_judgy.Retry.Classify.{should_retry}
use go_judgy.Retry.Config.{RetryConfig}
use go_judgy.Retry.Stats.{RetryStats}
use go_judgy.Retry.Loop.{Round, max_attempts_in, exhausted_error, handle}
use go_judgy.Retry.Script.{scripted, is_transient, answer_at, answer_of, response_seen}
use go_judgy.Retry.Outcome.{handle-first, handle-exhausted}

-- The chain of an error holds exactly one of the kinds ProviderError, RateLimitError and
-- CircuitBreakerError.
abbrev pub IsTyped : Err → Type 0
IsTyped e =
    ((p : ProviderError) × (as_provider_error e ≡ some p)
      × (as_rate_limit_error e ≡ none)
      × (as_circuit_breaker_error e ≡ none))
    ⊎ (((r : RateLimitError) × (as_rate_limit_error e ≡ some r)
          × (as_provider_error e ≡ none)
          × (as_circuit_breaker_error e ≡ none))
        ⊎ ((c : CircuitBreakerError) × (as_circuit_breaker_error e ≡ some c)
            × (as_provider_error e ≡ none)
            × (as_rate_limit_error e ≡ none)))

abbrev pub of_breaker : Err → Bool
of_breaker e = is_some (as_circuit_breaker_error e)

classify_llm_error-typed :
    (e : Err) → IsTyped e → (classify_llm_error e).retryable ≡ (should_retry e || of_breaker e)
unfolding classify_llm_error classify_typed_errors should_retry
classify_llm_error-typed e (inl (p, found, a, b)) = rw (found, a, b) (ground arith)
classify_llm_error-typed e (inr (inl (r, found, a, b))) = rw (found, a, b) refl
classify_llm_error-typed e (inr (inr (c, found, a, b))) = rw (found, a, b) refl

-- Wrapping an exhaustion around an error keeps what the classification reads.
exhausted_error-IsTyped : (n : ℤ) (e : Err) → IsTyped e → IsTyped (exhausted_error n e)
unfolding as_provider_error as_rate_limit_error as_circuit_breaker_error
exhausted_error-IsTyped n e h = h

-- What decides for an error of each kind.
should_retry-typed :
    (e : Err)
    → (h : IsTyped e)
    → should_retry e
      ≡ (elim h [ inl x ↦ is_retryable x.0 | inr (inl x) ↦ true | inr (inr x) ↦ false ])
unfolding should_retry
should_retry-typed e (inl (p, found, a, b)) = rw (found, a, b) refl
should_retry-typed e (inr (inl (r, found, a, b))) = rw (found, b) refl
should_retry-typed e (inr (inr (c, found, a, b))) = rw found refl

should_retry-exhausted :
    (n : ℤ) (e : Err) → IsTyped e → should_retry (exhausted_error n e) ≡ should_retry e
unfolding as_provider_error as_rate_limit_error as_circuit_breaker_error
should_retry-exhausted n e h =
    should_retry-typed (exhausted_error n e) h ∙ sym (should_retry-typed e h)

-- The first n replies are all to be tried again.
abbrev pub all_transient : (ℕ → Reply) → ℕ → Bool
all_transient script zero = true
all_transient script (suc n) = all_transient script n && is_transient (script n)

lt_suc-cases : (i n : ℕ) → i < suc n → (i < n) ⊎ (i ≡ n)
lt_suc-cases i n h = elim (Bool-cases (ltb i n)) [
  | inl less ↦ inl (ltb→lt i n less)
  | inr more ↦ inr (ground (arith, h, more))
]

-- The first reply that is not to be tried again, among n.
abbrev Stops : (ℕ → Reply) → ℕ → Type 0
Stops script n =
    (k : ℕ) × (k < n)
    × ((i : ℕ) → i < k → is_transient (script i) ≡ true)
    × (is_transient (script k) ≡ false)

earlier_or_last :
    (script : ℕ → Reply) (n : ℕ)
    → ((i : ℕ) → i < n → is_transient (script i) ≡ true)
    → is_transient (script n) ≡ true
    → (i : ℕ) → i < suc n
    → is_transient (script i) ≡ true
earlier_or_last script n before more i h = elim (lt_suc-cases i n h) [
  | inl less ↦ before i less
  | inr same ↦ rw same more
]

all_transient-cases :
    (script : ℕ → Reply) (n : ℕ)
    → ((all_transient script n ≡ true) × ((i : ℕ) → i < n → is_transient (script i) ≡ true))
      ⊎ ((all_transient script n ≡ false) × Stops script n)
all_transient-cases script zero = inl (refl, λ i h. absurd (omega arith))
all_transient-cases script (suc n) = elim (all_transient-cases script n) [
  | inr (e, (k, low, before, stop)) ↦ inr (rw e refl, (k, omega arith, before, stop))
  | inl (e, before) ↦ elim (Bool-cases (is_transient (script n))) [
    | inr stop ↦ inr (rw (e, stop) refl, (n, omega arith, before, stop))
    | inl more ↦ inl (rw (e, more) refl, λ i h. earlier_or_last script n before more i h)
  ]
]

transient-error :
    (reply : Reply)
    → is_transient reply ≡ true
    → (e : Err) × (reply.1 ≡ some e) × (should_retry e ≡ true)
unfolding is_transient
transient-error (resp, none) h = cc
transient-error (resp, some e) h = (e, refl, h)

final-error :
    (reply : Reply) (e : Err)
    → is_transient reply ≡ false
    → reply.1 ≡ some e
    → should_retry e ≡ false
unfolding is_transient
final-error (resp, none) e h said = cc
final-error (resp, some e') e h said = let same : e' ≡ e = cc in rw (← same) h

error-answer_of : (seen : Option Response) (reply : Reply) → (answer_of seen reply).1 ≡ reply.1
error-answer_of seen (resp, none) = refl
error-answer_of seen (resp, some e) = refl

error-answer_at : (script : ℕ → Reply) (k : ℕ) → (answer_at script k).1 ≡ (script k).1
unfolding answer_at
error-answer_at script k = error-answer_of (response_seen script (suc k)) (script k)

exhausted_error-retryable :
    (n : ℤ) (e : Err)
    → IsTyped e
    → should_retry e ≡ true
    → (classify_llm_error (exhausted_error n e)).retryable ≡ true
exhausted_error-retryable n e h again =
    classify_llm_error-typed (exhausted_error n e) (exhausted_error-IsTyped n e h)
    ∙ ap (λ b. b || of_breaker (exhausted_error n e)) (should_retry-exhausted n e h ∙ again)

module _ (F : Floats) (cfg : RetryConfig F) (parse_text : Bytes → ℤ) (script : ℕ → Reply)
    (untimed : cfg.max_elapsed_time ≡ pos 0)
    (typed : (i : ℕ) (e : Err) → (script i).1 ≡ some e → IsTyped e) where
  -- With no limit on time or budget and a context that is never cancelled, when the chain of each error
  -- of the handler below holds exactly one of the kinds ProviderError, RateLimitError and
  -- CircuitBreakerError: the classification of the error that the retry middleware returns advises the
  -- workflow to try again exactly when all `MaxAttempts` attempts were used up by replies to be tried
  -- again, or the error is of a circuit breaker.
  pub classify_llm_error-handle :
      (ctx : Context) (req : Request) (env : ℕ → Round) (st : RetryStats) (n : ℕ) (e : Err)
      → cfg.enable_budget ≡ false
      → ((i : ℕ) → (env i).cancelled ≡ none)
      → max_attempts_in ctx cfg.max_attempts ≡ pos (suc n)
      → (handle F cfg parse_text (scripted script) env none ctx req (st, 0)).1.1 ≡ some e
      → (classify_llm_error e).retryable ≡ (all_transient script (suc n) || of_breaker e)
  classify_llm_error-handle ctx req env st n e off going attempts said =
      elim (all_transient-cases script (suc n)) [
        | inl (all, each) ↦
            let (x, last, again) = transient-error (script n) (each n (omega arith)) in
            let run =
              (handle-exhausted F cfg parse_text script untimed ctx req env st n x off going each
                last attempts).1 in
            let same : exhausted_error (pos (suc n)) x ≡ e = cc (ap (λ r. r.1) run, said) in
            subst (λ z. (classify_llm_error z).retryable ≡ true) same
              (exhausted_error-retryable (pos (suc n)) x (typed n x last) again)
            ∙ sym (ap (λ b. b || of_breaker e) all)
        | inr (some_stop, (k, low, before, stop)) ↦
            let run =
              (handle-first F cfg parse_text script untimed ctx req env st k off going before stop
                (rw attempts low)).1 in
            let own : (script k).1 ≡ some e =
              sym (error-answer_at script k) ∙ sym (ap (λ r. r.1) run) ∙ said in
            classify_llm_error-typed e (typed k e own)
            ∙ ap (λ b. b || of_breaker e) (final-error (script k) e stop own ∙ sym some_stop)
      ]
