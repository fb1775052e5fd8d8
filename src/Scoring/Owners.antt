-- ===== src/Scoring/Owners.antt =====
-- Each score of a batch is a score of the answer in whose slot it stands.
use go_judgy.Prelude.{
  ℕ, true, false, not, ◌&&◌, none, some, ◌⊎◌, inl, inr, List, [], ◌∷◌, map, length, get_elem?,
  get_elem?-lt, ◌==◌, ==_iff, ◌≡◌, refl, ap, ◌∙◌, subst, arith, Bool-cases,
}
use go_judgy.Prelude.Bytes.{Bytes, is_empty_text}
use go_judgy.Floats.{Floats}
use go_judgy.Domain.Judgement.{JudgeScore}
use go_judgy.Domain.Answer.{Answer}
use go_judgy.Domain.Evaluation.{EvalConfig}
use go_judgy.Transport.{Response}
use go_judgy.Transport.Payload.{FullRequest}
use go_judgy.Transport.Keys.{Codec, Result}
use go_judgy.Client.Validated.{Stamps, Judging}
use go_judgy.Client.Score.{ScoreAnswersInput, ScoreAnswersOutput, score}
use go_judgy.Client.Judged.{score-ids}
use go_judgy.Scoring.Policy.{WorkflowContext, apply_blob_if_large_policy}
use go_judgy.Scoring.Batch.{
  ActivityError, Scorer, ScoringTurn, scoring_input, after_policy, of_scores, of_client, identified,
  score_answer, score_at, scores_from, add_totals, run_turns, written, process_batch_scoring,
  without_totals,
}
use go_judgy.Scoring.Slots.{
  get_elem?-scores_from, add_totals-scores, at_zero, live, turn, turns_from, turn-other,
}

inr-injective : {A B : Type 0} {x y : B} → ◌≡◌ {A = A ⊎ B} (inr x) (inr y) → x ≡ y
inr-injective h = cc

module _ (F : Floats) where
  module _ {W : Type 0} (a : Scorer F W) (question : Bytes) (config : EvalConfig F)
      (wf : WorkflowContext) (answers : List Answer) where
    -- Every client output for one answer has, if any, a first score of that answer.
    abbrev Faithful : Type 0
    Faithful =
        (x : Answer) (w : W) (out : ScoreAnswersOutput F) (first : JudgeScore F)
        (rest : List (JudgeScore F))
        → (a.client (scoring_input F a question config wf x) w).1 ≡ inr out
        → out.scores ≡ first ∷ rest
        → first.answer_id ≡ x.id

    module _ (faithful : Faithful) where
      policy-answer_id :
          (s s' : JudgeScore F) (reasoning : Bytes) (index : ℕ) (w : W)
          → (apply_blob_if_large_policy F a.store a.blob_threshold s reasoning wf index w).1
            ≡ inr s'
          → s'.answer_id ≡ s.answer_id
      unfolding apply_blob_if_large_policy
      policy-answer_id s s' reasoning index w h = ground arith

      identified-answer_id :
          (x : Answer) (index : ℕ) (s : JudgeScore F)
          → s.answer_id ≡ x.id
          → (identified F a question config wf x index s).answer_id ≡ x.id
      identified-answer_id x index s h = ground arith

      after_policy-answer_id :
          (r : W × Result (JudgeScore F)) (s' : JudgeScore F)
          → (after_policy F a question config wf r).1 ≡ inr s'
          → r.1 ≡ inr s'
      after_policy-answer_id (w, inl e) s' h = cc
      after_policy-answer_id (w, inr s) s' h = ground arith

      of_scores-answer_id :
          (x : Answer) (index : ℕ) (w : W) (scores : List (JudgeScore F)) (s' : JudgeScore F)
          → ((first : JudgeScore F) (rest : List (JudgeScore F))
              → scores ≡ first ∷ rest
              → first.answer_id ≡ x.id)
          → (of_scores F a question config wf x index w scores).1 ≡ inr s'
          → s'.answer_id ≡ x.id
      of_scores-answer_id x index w [] s' own h = cc
      of_scores-answer_id x index w (first ∷ rest) s' own h =
          let s = identified F a question config wf x index first in
          let named = identified-answer_id x index first (own first rest refl) in
          elim (Bool-cases (is_empty_text s.evidence.inline_reasoning)) [
            | inl e ↦ let same : s ≡ s' = ground arith in rw (← same) named
            | inr e ↦
                policy-answer_id s s' s.evidence.inline_reasoning index w (
                  after_policy-answer_id
                    (apply_blob_if_large_policy F a.store a.blob_threshold s
                      s.evidence.inline_reasoning wf index w)
                    s' (rw e at h))
                ∙ named
          ]

      of_client-answer_id :
          (x : Answer) (index : ℕ) (r : W × Result (ScoreAnswersOutput F)) (s' : JudgeScore F)
          → ((out : ScoreAnswersOutput F) (first : JudgeScore F) (rest : List (JudgeScore F))
              → r.1 ≡ inr out
              → out.scores ≡ first ∷ rest
              → first.answer_id ≡ x.id)
          → (of_client F a question config wf x index r).1 ≡ inr s'
          → s'.answer_id ≡ x.id
      of_client-answer_id x index (w, inl e) s' own h = cc
      of_client-answer_id x index (w, inr out) s' own h =
          of_scores-answer_id x index w out.scores s' (λ first rest e. own out first rest refl e) h

      score_answer-answer_id :
          (x : Answer) (index : ℕ) (w : W) (s' : JudgeScore F)
          → (score_answer F a question config wf x index w).1 ≡ inr s'
          → s'.answer_id ≡ x.id
      unfolding score_answer
      score_answer-answer_id x index w s' h =
          of_client-answer_id x index (a.client (scoring_input F a question config wf x) w) s'
            (faithful x w) h

      written-answer_id :
          (x : Answer) (t : ScoringTurn F) (r : ActivityError ⊎ JudgeScore F)
          → ((s : JudgeScore F) → r ≡ inr s → s.answer_id ≡ x.id)
          → (written F a question config wf x t r).answer_id ≡ x.id
      written-answer_id x t (inl e) h = refl
      written-answer_id x t (inr s) h = h s refl

      module _ (i : ℕ) (x : Answer) (at : get_elem? answers i ≡ some x) where
        turn-own :
            (t : ScoringTurn F) (done : List (ℕ × JudgeScore F)) (w : W)
            → (t.index == i && not t.cancelled) ≡ true
            → (score_at F i (turn F a question config wf answers t done w).1).answer_id ≡ x.id
        unfolding score_at
        turn-own t done w h =
            let same : t.index ≡ i = (==_iff t.index i).0 (ground arith) in
            let runs : t.cancelled ≡ false = ground arith in
            let own : get_elem? answers t.index ≡ some x =
              ap (λ n. get_elem? answers n) same ∙ at in
            let r = (score_answer F a question config wf x t.index w).1 in
            let named = written-answer_id x t r (score_answer-answer_id x t.index w) in
            rw (own, runs) (ground arith)

        turns_from-own :
            (turns : List (ScoringTurn F)) (done : List (ℕ × JudgeScore F)) (w : W)
            → (live F i turns ≡ true) ⊎ ((score_at F i done).answer_id ≡ x.id)
            → (score_at F i (turns_from F a question config wf answers turns done w).1).answer_id
              ≡ x.id
        unfolding run_turns
        turns_from-own [] done w (inl h) = cc
        turns_from-own [] done w (inr h) = h
        turns_from-own (t ∷ turns) done w h =
            let step = turn F a question config wf answers t done w in
            elim (Bool-cases (t.index == i && not t.cancelled)) [
              | inl e ↦ turns_from-own turns step.1 step.0 (inr (turn-own t done w e))
              | inr e ↦ turns_from-own turns step.1 step.0 (elim h [
                | inl later ↦ inl (ground arith)
                | inr kept ↦ inr (
                    ap (λ s. s.answer_id) (turn-other F a question config wf answers i t done w e)
                    ∙ kept)
              ])
            ]

        process_batch_scoring-own :
            (turns : List (ScoringTurn F)) (w : W)
            → live F i turns ≡ true
            → let result = (process_batch_scoring F a question config wf answers none turns w).1 in
              (out : ScoreAnswersOutput F) × (s : JudgeScore F) × (result ≡ inr out)
              × (get_elem? out.scores i ≡ some s)
              × (s.answer_id ≡ x.id)
        unfolding process_batch_scoring
        process_batch_scoring-own turns w h =
            let done = (turns_from F a question config wf answers turns [] w).1 in
            let scores = scores_from F (length answers) 0 done in
            (
              add_totals F scores (without_totals F scores),
              score_at F i done,
              refl,
              rw (add_totals-scores F scores (without_totals F scores)) (
                  get_elem?-scores_from F (length answers) i 0 done (get_elem?-lt answers i x at)
                  ∙ ap (λ s. some s) (at_zero F i done)),
              turns_from-own turns [] w (inl h),
            )

module _ (F : Floats) {W : Type 0} (J : Judging F) (K : Codec F)
    (next : FullRequest F → W → W × Result Response) (stamps : W → ℕ → Stamps) where
  -- The client of internal/llm, with the stamps that the clock and the generator give.
  abbrev pub llm_client : ScoreAnswersInput F → W → W × Result (ScoreAnswersOutput F)
  llm_client input w =
      ((score F J K next input (stamps w) w).0, inr (score F J K next input (stamps w) w).1)

  head-ids :
      (l rest : List (JudgeScore F)) (first : JudgeScore F) (id : Bytes)
      → map (λ s. s.answer_id) l ≡ id ∷ []
      → l ≡ first ∷ rest
      → first.answer_id ≡ id
  head-ids l rest first id h e = cc (h, ap (λ m. map (λ s. s.answer_id) m) e)

  -- With the client of internal/llm, whatever its chain, its validators and the store do, a batch whose
  -- goroutines were all launched before the context ended succeeds, and at the index of each goroutine
  -- that ran stands a score of the answer of that index.
  pub process_batch_scoring-answer_id :
      (a : Scorer F W) (question : Bytes) (config : EvalConfig F) (wf : WorkflowContext)
      (answers : List Answer) (turns : List (ScoringTurn F)) (w : W) (i : ℕ) (x : Answer)
      → get_elem? answers i ≡ some x
      → live F i turns ≡ true
      → let served = record a { client = llm_client } in
        let result = (process_batch_scoring F served question config wf answers none turns w).1 in
        (out : ScoreAnswersOutput F) × (s : JudgeScore F) × (result ≡ inr out)
        × (get_elem? out.scores i ≡ some s)
        × (s.answer_id ≡ x.id)
  process_batch_scoring-answer_id a question config wf answers turns w i x at h =
      let served = record a { client = llm_client } in
      process_batch_scoring-own F served question config wf answers
        (λ y v out first rest ok e.
          head-ids out.scores rest first y.id
            (subst (λ o. map (λ s. s.answer_id) o.scores ≡ y.id ∷ []) (inr-injective ok)
              (score-ids F J K next (scoring_input F served question config wf y) (stamps v) v))
            e)
        i x at turns w h
