-- ===== src/Domain/Judgement.antt =====
-- internal/domain/score.go and artifact.go: the making and the checks of a score. The checks of the
-- struct tags are a parameter, `check_struct`, which gives the error of the validator, if any.
use go_judgy.Prelude.{Bool, true, false, not, ◌&&◌, Option, none, some, List, [], if◌then◌else◌}
use go_judgy.Prelude.Int.{ℤ, pos, ltb_ℤ, is_zero_ℤ}
use go_judgy.Prelude.Bytes.{Bytes, bytes, beq, is_empty_text}
use go_judgy.Errors.Types.{Err}
use go_judgy.Floats.{Floats}
use go_judgy.Domain.Score.{DimensionScore}

pub record ArtifactRef : Type 0 where
  pub key : Bytes
  pub size : ℤ
  pub kind : Bytes

unfoldable pub is_zero_ref : ArtifactRef → Bool
is_zero_ref a = is_empty_text a.key && (is_zero_ℤ a.size && is_empty_text a.kind)

pub data ScoreError : Type 0 where
  invalid_reason_data invalid_reason_kind artifact_key_required artifact_kind_required : ScoreError
  struct_error : Err → ScoreError

abbrev of_struct : Option Err → Option ScoreError
of_struct none = none
of_struct (some e) = some (struct_error e)

unfoldable pub validate_ref : (ArtifactRef → Option Err) → ArtifactRef → Option ScoreError
validate_ref check_struct a =
    if is_empty_text a.key
    then some artifact_key_required
    else if is_empty_text a.kind
    then some artifact_kind_required
    else of_struct (check_struct a)

-- `ArtifactJudgeRationale`.
abbrev pub judge_rationale : Bytes
judge_rationale = bytes "judge_rationale"

module _ (F : Floats) where
  open F use {Float, zero_float, one_float, lt_float}

  pub record ScoreProvenance : Type 0 where
    pub judge_id : Bytes
    pub provider : Bytes
    pub model : Bytes
    pub provider_request_ids : List Bytes
    pub scored_at : ℤ

  pub record ScoreEvidence : Type 0 where
    pub reason_ref : ArtifactRef
    pub inline_reasoning : Bytes
    pub dimensions : List (DimensionScore F)
    pub rubric_version : Bytes

  pub record ScoreUsage : Type 0 where
    pub latency_ms : ℤ
    pub tokens_used : ℤ
    pub calls_used : ℤ
    pub cost_cents : ℤ

  -- `Score` with its embedded structs.
  pub record JudgeScore : Type 0 where
    pub id : Bytes
    pub answer_id : Bytes
    pub value : Float
    pub confidence : Float
    pub evidence : ScoreEvidence
    pub provenance : ScoreProvenance
    pub usage : ScoreUsage
    pub valid : Bool
    pub error : Bytes

  unfoldable pub clamp01 : Float → Float
  clamp01 x =
      if lt_float x zero_float then zero_float else if lt_float one_float x then one_float else x

  unfoldable pub set_score_values : Float → Float → JudgeScore → JudgeScore
  unfolding clamp01
  set_score_values value confidence s = record s {
    value = clamp01 value;
    confidence = clamp01 confidence;
  }

  abbrev pub has_reason_ref : ScoreEvidence → Bool
  has_reason_ref e = not (is_zero_ref e.reason_ref)

  abbrev pub has_inline : ScoreEvidence → Bool
  has_inline e = not (is_empty_text e.inline_reasoning)

  abbrev pub same_truth : Bool → Bool → Bool
  same_truth true b = b
  same_truth false b = not b

  module _ (check_struct : JudgeScore → Option Err) (check_ref : ArtifactRef → Option Err) where
    -- The checks of the reasoning of a score that is marked invalid, and of one that is not.
    abbrev pub check_invalid : ScoreEvidence → Option ScoreError
    check_invalid e =
        if is_zero_ref e.reason_ref
        then none
        else if not (beq e.reason_ref.kind judge_rationale)
        then some invalid_reason_kind
        else validate_ref check_ref e.reason_ref

    abbrev pub check_valid : ScoreEvidence → Option ScoreError
    check_valid e =
        if same_truth (has_reason_ref e) (has_inline e)
        then some invalid_reason_data
        else if has_reason_ref e
        then (if not (beq e.reason_ref.kind judge_rationale)
            then some invalid_reason_kind
            else validate_ref check_ref e.reason_ref)
        else none

    -- `Validate`.
    unfoldable pub validate_score : JudgeScore → Option ScoreError
    unfolding validate_ref is_zero_ref
    validate_score s = elim (check_struct s) [
      | some e ↦ some (struct_error e)
      | none ↦ if not s.valid then check_invalid s.evidence else check_valid s.evidence
    ]

    abbrev pub unscored : Bytes → Bytes → ℤ → ScoreProvenance → ScoreEvidence → JudgeScore
    unscored id answer_id scored_at provenance evidence = record {
      id = id;
      answer_id = answer_id;
      value = zero_float;
      confidence = zero_float;
      evidence = evidence;
      provenance = record provenance { scored_at = scored_at };
      usage = record {
        latency_ms = pos 0;
        tokens_used = pos 0;
        calls_used = pos 0;
        cost_cents = pos 0;
      };
      valid = true;
      error = [];
    }

    -- `MakeScore`; the score comes with the error of its `Validate`.
    unfoldable pub make_score :
        Bytes → Bytes → ℤ → ScoreProvenance → ScoreEvidence → Option JudgeScore × Option ScoreError
    unfolding validate_score
    make_score id answer_id scored_at provenance evidence =
        let s = unscored id answer_id scored_at provenance evidence in
        if same_truth (has_reason_ref evidence) (has_inline evidence)
        then (none, some invalid_reason_data)
        else if has_reason_ref evidence && not (beq evidence.reason_ref.kind judge_rationale)
        then (none, some invalid_reason_kind)
        else (some s, validate_score s)

-- 4 KiB and 1 MiB.
abbrev pub min_blob_threshold_bytes : ℤ
min_blob_threshold_bytes = pos 4096

abbrev pub max_blob_threshold_bytes : ℤ
max_blob_threshold_bytes = pos 1048576

unfoldable pub validate_blob_threshold : ℤ → ℤ × Bool
validate_blob_threshold threshold =
    if ltb_ℤ threshold min_blob_threshold_bytes
    then (min_blob_threshold_bytes, true)
    else if ltb_ℤ max_blob_threshold_bytes threshold
    then (max_blob_threshold_bytes, true)
    else (threshold, false)

unfoldable pub should_blob_rationale : ℤ → ℤ → Bool
should_blob_rationale rationale_length threshold = ltb_ℤ threshold rationale_length
