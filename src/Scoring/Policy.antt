-- ===== src/Scoring/Policy.antt =====
-- internal/scoring/activities.go: where the reasoning of a score is kept.
use go_judgy.Prelude.{ℕ, inl, inr, [], ◌++◌, length, if◌then◌else◌}
use go_judgy.Prelude.Int.{ℤ, pos}
use go_judgy.Prelude.Bytes.{Bytes, bytes}
use go_judgy.Floats.{Floats}
use go_judgy.Domain.Judgement.{ArtifactRef, JudgeScore, judge_rationale, should_blob_rationale}
use go_judgy.Domain.Answer.{zero_ref}
use go_judgy.Transport.Keys.{Result, wrap_error}
use go_judgy.Generation.Keys.{show_two}
use go_judgy.Generation.Store.{ArtifactStore}

-- `WorkflowContext` of pkg/activity/base.go.
pub record WorkflowContext : Type 0 where
  pub workflow_id : Bytes
  pub run_id : Bytes
  pub tenant_id : Bytes
  pub activity_id : Bytes

-- `generateRationaleKey`.
unfoldable pub rationale_key : Bytes → Bytes → Bytes → ℕ → Bytes
unfolding show_two
rationale_key tenant_id workflow_id score_id index =
    bytes "rationales/"
    ++ (tenant_id
        ++ (bytes "/wf-"
            ++ (workflow_id
                ++ (bytes "/score-"
                    ++ (score_id ++ (bytes "/idx-" ++ (show_two index ++ bytes ".txt")))))))

module _ (F : Floats) where
  abbrev with_reason : JudgeScore F → ArtifactRef → Bytes → JudgeScore F
  with_reason s ref text = record s {
    evidence = record s.evidence { reason_ref = ref; inline_reasoning = text };
  }

  module _ {W : Type 0} (store : ArtifactStore W) where
    abbrev blobbed : JudgeScore F → W × Result ArtifactRef → W × Result (JudgeScore F)
    blobbed s (w, inl e) = (w, wrap_error (bytes "failed to store rationale in blob: ") (inl e))
    blobbed s (w, inr ref) = (w, inr (with_reason s ref []))

    -- `applyBlobIfLargePolicy`.
    unfoldable pub apply_blob_if_large_policy :
        ℤ → JudgeScore F → Bytes → WorkflowContext → ℕ → W → W × Result (JudgeScore F)
    unfolding should_blob_rationale
    apply_blob_if_large_policy blob_threshold s reasoning wf index w =
        if should_blob_rationale (pos (length reasoning)) blob_threshold
        then blobbed s (
            store.put reasoning judge_rationale
              (rationale_key wf.tenant_id wf.workflow_id s.id index) w)
        else (w, inr (with_reason s zero_ref reasoning))
