-- ===== src/Client/Accounts.antt =====
-- What `Generate` reports of its calls: the answers, the number of calls and the error.
use go_judgy.Prelude.{
  ℕ, zero, suc, ◌+◌, ◌≤◌, ◌<◌, Bool, true, false, not, ◌||◌, Option, none, some, is_some, ◌⊎◌, inl,
  inr, ◌↔◌, List, [], ◌∷◌, length, length-append, ◌==◌, ◌≡◌, refl, subst, arith,
}
use go_judgy.Prelude.Int.{pos, ◌+ℤ◌, int64, max_int64, pos-+ℤ, int64-pos}
use go_judgy.Prelude.Bytes.{Bytes, is_empty_text}
use go_judgy.Floats.{Floats}
use go_judgy.Domain.Answer.{Answer}
use go_judgy.Transport.{Response}
use go_judgy.Transport.Payload.{FullRequest}
use go_judgy.Transport.Keys.{Codec, Result, generate_idem_key}
use go_judgy.Client.Generate.{
  Call, Outcome, outcome_at, Totals, start, add_outcome, add_outcomes, output_of, final_error,
  call_request, outcome_of, GenerateAnswersInput, canonical_request, run_calls, generate,
}

-- The failures among n results from an index on, and the results of goroutines that did not run.
abbrev is_failure : Option Outcome → ℕ
is_failure none = 0
is_failure (some (inl e)) = 1
is_failure (some (inr r)) = 0

failures : ℕ → ℕ → List (ℕ × Outcome) → ℕ
failures zero i results = 0
failures (suc n) i results = is_failure (outcome_at i results) + failures n (suc i) results

-- Every result from an index on is there.
abbrev Complete : ℕ → ℕ → List (ℕ × Outcome) → Type 0
Complete n i results = (j : ℕ) → i ≤ j → j < i + n → is_some (outcome_at j results) ≡ true

abbrev noted : Option Bytes → Bool
noted none = false
noted (some t) = not (is_empty_text t)

-- The first error is noted exactly when there was a failure.
abbrev Tracks : Totals → ℕ → Type 0
Tracks t f = ((t.first_error ≡ none) × (f ≡ 0)) ⊎ ((noted t.first_error ≡ true) × (0 < f))

add_outcome-Tracks :
    (i : ℕ) (o : Option Outcome) (t : Totals) (f : ℕ)
    → Tracks t f
    → Tracks (add_outcome i o t) (f + is_failure o)
unfolding add_outcome
add_outcome-Tracks i none t f h = ground arith
add_outcome-Tracks i (some (inl e)) t f (inl (none_yet, zero_yet)) =
    inr (rw none_yet refl, omega arith)
add_outcome-Tracks i (some (inl e)) t f (inr (some_yet, more)) = inr (ground arith, omega arith)
add_outcome-Tracks i (some (inr r)) t f h = ground arith

add_outcomes-Tracks :
    (n i : ℕ) (results : List (ℕ × Outcome)) (t : Totals) (f : ℕ)
    → Tracks t f
    → Tracks (add_outcomes n i results t) (f + failures n i results)
unfolding add_outcomes failures
add_outcomes-Tracks zero i results t f h = subst (Tracks t) (omega arith) h
add_outcomes-Tracks (suc n) i results t f h =
    let o = outcome_at i results in
    subst (Tracks (add_outcomes n (suc i) results (add_outcome i o t))) (omega arith) (
      add_outcomes-Tracks n (suc i) results (add_outcome i o t) (f + is_failure o)
        (add_outcome-Tracks i o t f h))

add_outcome-length :
    (i : ℕ) (o : Option Outcome) (t : Totals)
    → is_some o ≡ true
    → length (add_outcome i o t).answers + is_failure o ≡ length t.answers + 1
unfolding add_outcome
add_outcome-length i none t h = cc
add_outcome-length i (some (inl e)) t h = omega arith
add_outcome-length i (some (inr (a, tokens))) t h = omega (arith, length-append t.answers (a ∷ []))

add_outcomes-length :
    (n i : ℕ) (results : List (ℕ × Outcome)) (t : Totals)
    → Complete n i results
    → length (add_outcomes n i results t).answers + failures n i results ≡ length t.answers + n
unfolding add_outcomes failures
add_outcomes-length zero i results t h = omega arith
add_outcomes-length (suc n) i results t h =
    let o = outcome_at i results in
    omega (
      arith,
      add_outcome-length i o t (h i (omega arith) (omega arith)),
      add_outcomes-length n (suc i) results (add_outcome i o t)
          (λ j below above. h j (omega arith) (omega arith)),
    )

int64-suc : (n : ℕ) → n < max_int64 → int64 (pos n +ℤ pos 1) ≡ pos (n + 1)
int64-suc n h = rw (pos-+ℤ n 1) (int64-pos (n + 1) (omega arith))

-- Each answer is one call.
add_outcome-calls :
    (i : ℕ) (o : Option Outcome) (t : Totals)
    → t.calls ≡ pos (length t.answers)
    → length t.answers < max_int64
    → (add_outcome i o t).calls ≡ pos (length (add_outcome i o t).answers)
unfolding add_outcome
add_outcome-calls i none t h small = h
add_outcome-calls i (some (inl e)) t h small = h
add_outcome-calls i (some (inr (a, tokens))) t h small =
    rw (h, length-append t.answers (a ∷ [])) (int64-suc (length t.answers) small)

add_outcome-le :
    (i : ℕ) (o : Option Outcome) (t : Totals)
    → length (add_outcome i o t).answers ≤ length t.answers + 1
unfolding add_outcome
add_outcome-le i none t = omega arith
add_outcome-le i (some (inl e)) t = omega arith
add_outcome-le i (some (inr (a, tokens))) t = omega (arith, length-append t.answers (a ∷ []))

add_outcomes-calls :
    (n i : ℕ) (results : List (ℕ × Outcome)) (t : Totals)
    → t.calls ≡ pos (length t.answers)
    → length t.answers + n ≤ max_int64
    → (add_outcomes n i results t).calls ≡ pos (length (add_outcomes n i results t).answers)
unfolding add_outcomes
add_outcomes-calls zero i results t h small = h
add_outcomes-calls (suc n) i results t h small =
    let o = outcome_at i results in
    add_outcomes-calls n (suc i) results (add_outcome i o t)
      (add_outcome-calls i o t h (omega arith)) (omega (arith, add_outcome-le i o t))

-- The index of a goroutine of the list.
abbrev pub called : ℕ → List Call → Bool
called i [] = false
called i (c ∷ calls) = (c.index == i) || called i calls

found-cons :
    (i : ℕ) (c : Call) (r : Outcome) (calls : List Call) (results : List (ℕ × Outcome))
    → (called i (c ∷ calls) || is_some (outcome_at i results)) ≡ true
    → (called i calls || is_some (outcome_at i ((c.index, r) ∷ results))) ≡ true
unfolding outcome_at
found-cons i c r calls results h = ground arith

final_error-empty :
    (first : Option Bytes) (answers : List Answer) (f n : ℕ)
    → ((first ≡ none) × (f ≡ 0)) ⊎ ((noted first ≡ true) × (0 < f))
    → length answers + f ≡ suc n
    → (is_empty_text (final_error first answers) ≡ true) ↔ (length answers ≡ suc n)
final_error-empty none [] f n h e = ground arith
final_error-empty none (a ∷ answers) f n h e = ground arith
final_error-empty (some []) answers f n h e = ground arith
final_error-empty (some (c ∷ cs)) answers f n h e = ground arith

module _ (F : Floats) {W : Type 0} (K : Codec F)
    (next : FullRequest F → W → W × Result Response) where
  run_calls-called :
      (input : GenerateAnswersInput F) (trace_id key : Bytes) (i : ℕ) (calls : List Call)
      (results : List (ℕ × Outcome)) (w : W)
      → (called i calls || is_some (outcome_at i results)) ≡ true
      → is_some (outcome_at i (run_calls F K next input trace_id key calls results w).1) ≡ true
  unfolding run_calls outcome_at
  run_calls-called input trace_id key i [] results w h = h
  run_calls-called input trace_id key i (c ∷ calls) results w h =
      let req = call_request F input trace_id key c.index in
      let entry : ℕ × Outcome = (c.index, outcome_of F K next c req (next req w).1) in
      run_calls-called input trace_id key i calls (entry ∷ results) (next req w).0
        (found-cons i c entry.1 calls results h)

  -- The totals of a run with n answers asked for.
  abbrev totals : GenerateAnswersInput F → Bytes → Bytes → List Call → W → ℕ → Totals
  totals input trace_id key calls w n =
      add_outcomes n 0 (run_calls F K next input trace_id key calls [] w).1 start

  generate_lem :
      (input : GenerateAnswersInput F) (trace_id key : Bytes) (calls : List Call) (w : W) (n : ℕ)
      → generate_idem_key F K (canonical_request F input) ≡ inr key
      → input.num_answers ≡ pos (suc n)
      → (generate F K next input trace_id calls w).1
        ≡ output_of key (totals input trace_id key calls w (suc n))
  unfolding generate
  generate_lem input trace_id key calls w n keyed many = rw (keyed, many) (ground arith)

  -- `Generate` for at least one answer, when its key can be made, the number of answers fits in an int64
  -- and every goroutine has run: the calls that it reports are as many as its answers, so that a failed
  -- request is not counted, and its error is empty exactly when there are as many answers as asked for,
  -- so that it is set beside the answers when there are some.
  pub generate-accounts :
      (input : GenerateAnswersInput F) (trace_id key : Bytes) (calls : List Call) (w : W) (n : ℕ)
      → generate_idem_key F K (canonical_request F input) ≡ inr key
      → input.num_answers ≡ pos (suc n)
      → suc n ≤ max_int64
      → ((i : ℕ) → i < suc n → called i calls ≡ true)
      → let out = (generate F K next input trace_id calls w).1 in
        (out.calls_made ≡ pos (length out.answers))
        × ((is_empty_text out.error ≡ true) ↔ (length out.answers ≡ suc n))
  unfolding generate output_of
  generate-accounts input trace_id key calls w n keyed many small all =
      let results = (run_calls F K next input trace_id key calls [] w).1 in
      let t = totals input trace_id key calls w (suc n) in
      let f = 0 + failures (suc n) 0 results in
      rw (generate_lem input trace_id key calls w n keyed many) (
        add_outcomes-calls (suc n) 0 results start refl (omega arith),
        final_error-empty t.first_error t.answers f n
            (add_outcomes-Tracks (suc n) 0 results start 0 (inl (refl, refl)))
            (omega (
              arith,
              add_outcomes-length (suc n) 0 results start (λ j low high.
                  run_calls-called input trace_id key j calls [] w (rw (all j (omega arith)) refl)),
            )),
      )
