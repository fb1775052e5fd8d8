-- ===== src/Scoring/Silence.antt =====
-- Which events the scoring activity emits.
use go_judgy.Prelude.{ℕ, suc, Bool, false, ◌||◌, inl, List, [], ◌∷◌, length, ◌==◌, ◌≡◌, refl, ◌∙◌}
use go_judgy.Prelude.Bytes.{Bytes}
use go_judgy.Errors.Types.{Err}
use go_judgy.Floats.{Floats}
use go_judgy.Domain.Judgement.{JudgeScore}
use go_judgy.Client.Score.{ScoreAnswersOutput}
use go_judgy.Scoring.Policy.{WorkflowContext}
use go_judgy.Scoring.Events.{
  ActivityInfo, get_workflow_context, ScoringEmitter, emit_answer_scored, emit_scoring_usage,
  emit_scores, emit_scoring_events,
}

-- The lengths that a text of a UUID has.
abbrev pub is_uuid_length : ℕ → Bool
is_uuid_length n = n == 32 || (n == 36 || (n == 38 || n == 45))

module _ (F : Floats) {W : Type 0} (E : ScoringEmitter F W) where
  emit_scores-silent :
      (wf : WorkflowContext) (scores : List (JudgeScore F)) (i : ℕ) (key : Bytes) (w : W) (e : Err)
      → E.parse_uuid wf.tenant_id ≡ inl e
      → emit_scores F E wf scores i key w ≡ w
  unfolding emit_scores emit_answer_scored
  emit_scores-silent wf [] i key w e h = refl
  emit_scores-silent wf (s ∷ scores) i key w e h =
      rw h (emit_scores-silent wf scores (suc i) key w e h)

  emit_scoring_usage-silent :
      (wf : WorkflowContext) (out : ScoreAnswersOutput F) (key : Bytes) (w : W) (e : Err)
      → E.parse_uuid wf.tenant_id ≡ inl e
      → emit_scoring_usage F E wf out key w ≡ w
  unfolding emit_scoring_usage
  emit_scoring_usage-silent wf out key w e h = rw h refl

  -- Within an activity no event of scoring is ever emitted: the tenant of its context is `default`,
  -- which is no UUID if the parser refuses texts of other lengths than those of a UUID, and the
  -- emission leaves the world as it is, the sink included.
  pub emit_scoring_events-silent :
      (info : ActivityInfo) (out : ScoreAnswersOutput F) (w : W)
      → ((text : Bytes)
          → is_uuid_length (length text) ≡ false
          → (e : Err) × (E.parse_uuid text ≡ inl e))
      → emit_scoring_events F E (get_workflow_context info) out w ≡ w
  unfolding emit_scoring_events get_workflow_context
  emit_scoring_events-silent info out w refuses =
      let wf = get_workflow_context info in
      let (e, h) = refuses wf.tenant_id refl in
      emit_scoring_usage-silent wf out _ _ e h ∙ emit_scores-silent wf out.scores 0 _ w e h
