-- ===== src/Scoring/Slots.antt =====
-- Which score stands in which slot of a batch.
use go_judgy.Prelude.{
  ℕ, zero, suc, ◌+◌, ◌<◌, Bool, false, not, ◌&&◌, ◌||◌, none, some, inl, inr, List, [], ◌∷◌, length,
  get_elem?, ◌==◌, ◌≡◌, refl, ap, ◌∙◌, arith, Option-cases,
}
use go_judgy.Prelude.Bytes.{Bytes}
use go_judgy.Floats.{Floats}
use go_judgy.Domain.Judgement.{JudgeScore}
use go_judgy.Domain.Answer.{Answer}
use go_judgy.Domain.Evaluation.{EvalConfig}
use go_judgy.Client.Score.{ScoreAnswersOutput}
use go_judgy.Scoring.Policy.{WorkflowContext}
use go_judgy.Scoring.Batch.{
  Scorer, ScoringTurn, score_at, scores_from, zero_score, add_score, add_totals, turn_one,
  run_turns, process_batch_scoring, without_totals,
}

module _ (F : Floats) where
  add_score-scores :
      (s : JudgeScore F) (out : ScoreAnswersOutput F) → (add_score F s out).scores ≡ out.scores
  unfolding add_score
  add_score-scores s out = ground arith

  pub add_totals-scores :
      (l : List (JudgeScore F)) (out : ScoreAnswersOutput F)
      → (add_totals F l out).scores ≡ out.scores
  unfolding add_totals
  add_totals-scores [] out = refl
  add_totals-scores (s ∷ l) out = add_totals-scores l (add_score F s out) ∙ add_score-scores s out

  pub get_elem?-scores_from :
      (n i k : ℕ) (done : List (ℕ × JudgeScore F))
      → i < n
      → get_elem? (scores_from F n k done) i ≡ some (score_at F (k + i) done)
  unfolding scores_from
  get_elem?-scores_from zero i k done h = absurd (omega arith)
  get_elem?-scores_from (suc n) zero k done h =
      let e : k ≡ k + 0 = omega arith in ap (λ j. some (score_at F j done)) e
  get_elem?-scores_from (suc n) (suc i) k done h =
      let e : suc k + i ≡ k + suc i = omega arith in
      get_elem?-scores_from n i (suc k) done (omega arith) ∙ ap (λ j. some (score_at F j done)) e

  pub at_zero :
      (i : ℕ) (done : List (ℕ × JudgeScore F)) → score_at F (0 + i) done ≡ score_at F i done
  at_zero i done = let e : 0 + i ≡ i = omega arith in ap (λ n. score_at F n done) e

  -- The goroutine of an index runs before the context ends.
  abbrev pub live : ℕ → List (ScoringTurn F) → Bool
  live i [] = false
  live i (t ∷ turns) = (t.index == i && not t.cancelled) || live i turns

  module _ {W : Type 0} (a : Scorer F W) (question : Bytes) (config : EvalConfig F)
      (wf : WorkflowContext) (answers : List Answer) where
    abbrev pub turn : ScoringTurn F → List (ℕ × JudgeScore F) → W → W × List (ℕ × JudgeScore F)
    turn t done w = turn_one F a question config wf answers t (get_elem? answers t.index) done w

    abbrev pub turns_from :
        List (ScoringTurn F) → List (ℕ × JudgeScore F) → W → W × List (ℕ × JudgeScore F)
    turns_from turns done w = run_turns F a question config wf answers turns done w

    -- What a turn leaves in the slot of an index where it does not run.
    pub turn-other :
        (i : ℕ) (t : ScoringTurn F) (done : List (ℕ × JudgeScore F)) (w : W)
        → (t.index == i && not t.cancelled) ≡ false
        → score_at F i (turn t done w).1 ≡ score_at F i done
    unfolding score_at
    turn-other i t done w h = elim (Option-cases (get_elem? answers t.index)) [
      | inl e ↦ rw e refl
      | inr (x, e) ↦ rw e (ground arith)
    ]

    turns_from-unfilled :
        (i : ℕ) (turns : List (ScoringTurn F)) (done : List (ℕ × JudgeScore F)) (w : W)
        → live i turns ≡ false
        → score_at F i (turns_from turns done w).1 ≡ score_at F i done
    unfolding run_turns
    turns_from-unfilled i [] done w h = refl
    turns_from-unfilled i (t ∷ turns) done w h =
        turns_from-unfilled i turns (turn t done w).1 (turn t done w).0 (ground arith)
        ∙ turn-other i t done w (ground arith)

    -- A batch in which the context ends after the goroutines were launched succeeds: at the index of a
    -- goroutine that found the context ended it has the zero score, with no identifier and no error.
    pub process_batch_scoring-cancelled :
        (turns : List (ScoringTurn F)) (w : W) (i : ℕ)
        → i < length answers
        → live i turns ≡ false
        → let result = (process_batch_scoring F a question config wf answers none turns w).1 in
          (out : ScoreAnswersOutput F) × (result ≡ inr out)
          × (get_elem? out.scores i ≡ some (zero_score F))
    unfolding process_batch_scoring score_at
    process_batch_scoring-cancelled turns w i h dead =
        let done = (turns_from turns [] w).1 in
        let scores = scores_from F (length answers) 0 done in
        (
          add_totals F scores (without_totals F scores),
          refl,
          rw (add_totals-scores scores (without_totals F scores)) (
              get_elem?-scores_from (length answers) i 0 done h
              ∙ ap (λ s. some s) (at_zero i done ∙ turns_from-unfilled i turns [] w dead)),
        )
