-- ===== src/Scoring/Rationale.antt =====
-- The reasoning of a score can be read after it was kept, inline or in the store in memory.
use go_judgy.Prelude.{ℕ, false, ◌⊎◌, inl, inr, length, if◌then◌else◌, ◌≡◌, refl, Bool-cases}
use go_judgy.Prelude.Int.{ℤ, pos}
use go_judgy.Prelude.Bytes.{Bytes, is_empty_text, lookup-insert_self}
use go_judgy.Floats.{Floats}
use go_judgy.Domain.Judgement.{
  JudgeScore, is_zero_ref, should_blob_rationale, has_reason_ref, has_inline, same_truth,
}
use go_judgy.Business.Artifacts.{Storage, ArtifactError, get_artifact, put_artifact}
use go_judgy.Generation.Store.{memory}
use go_judgy.Scoring.Policy.{WorkflowContext, rationale_key, apply_blob_if_large_policy}

module _ (F : Floats) where
  -- The reasoning of a score, from the store if the score has a reference.
  abbrev pub reasoning_of : JudgeScore F → Storage → ArtifactError ⊎ Bytes
  reasoning_of s st =
      if is_zero_ref s.evidence.reason_ref
      then inr s.evidence.inline_reasoning
      else get_artifact s.evidence.reason_ref st

  -- With the store in memory the policy succeeds on every reasoning that is not empty, whatever the
  -- threshold: the score then has a reference or an inline text and not both, and what it names is the
  -- reasoning.
  pub apply_blob_if_large_policy-reads :
      (threshold : ℤ) (s : JudgeScore F) (reasoning : Bytes) (wf : WorkflowContext) (index : ℕ)
      (st : Storage)
      → is_empty_text reasoning ≡ false
      → let (st', r) = apply_blob_if_large_policy F memory threshold s reasoning wf index st in
        (s' : JudgeScore F) × (r ≡ inr s')
        × (reasoning_of s' st' ≡ inr reasoning)
        × (same_truth F (has_reason_ref F s'.evidence) (has_inline F s'.evidence) ≡ false)
  unfolding apply_blob_if_large_policy put_artifact get_artifact is_zero_ref rationale_key
  apply_blob_if_large_policy-reads threshold s reasoning wf index st h =
      elim (Bool-cases (should_blob_rationale (pos (length reasoning)) threshold)) [
        | inl large ↦ rw large (
          _,
          refl,
          rw
              (lookup-insert_self (rationale_key wf.tenant_id wf.workflow_id s.id index) reasoning
                st)
              refl,
          refl,
        )
        | inr small ↦ rw small (_, refl, refl, rw h refl)
      ]
