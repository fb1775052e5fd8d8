-- ===== src/Client/Validated.antt =====
-- internal/llm/client_score.go: the making of a score of a response. The validators, the decoding of
-- JSON and the checks of struct tags are parameters.
use go_judgy.Prelude.{Bool, true, false, Option, none, some, inl, inr, [], ◌++◌, if◌then◌else◌}
use go_judgy.Prelude.Int.{ℤ, pos, ltb_ℤ}
use go_judgy.Prelude.Bytes.{Bytes, bytes}
use go_judgy.Errors.Types.{Err, wrapped, plain_error}
use go_judgy.Errors.Text.{error_text}
use go_judgy.Floats.{Floats}
use go_judgy.Domain.Judgement.{
  ArtifactRef, JudgeScore, ScoreProvenance, ScoreError, invalid_reason_data, invalid_reason_kind,
  artifact_key_required, artifact_kind_required, struct_error, set_score_values, make_score,
}
use go_judgy.Transport.{Request, Response}
use go_judgy.Transport.Keys.{Result}
use go_judgy.Transport.Conversion.{
  Stamp, ScoreData, judge_id_of, usage_of, inline_evidence, create_invalid_score,
}
use go_judgy.Client.Repairs.{apply_transport_repairs}

abbrev score_error : ScoreError → Err
score_error invalid_reason_data =
    plain_error (bytes "exactly one of reason_ref or inline_reasoning must be populated")
score_error invalid_reason_kind = plain_error (bytes "reason_ref.kind must be 'judge_rationale'")
score_error artifact_key_required =
    plain_error
      (bytes "key: 'ArtifactRef.Key' Error:Field validation for 'Key' failed on the 'required' tag")
score_error artifact_kind_required =
    plain_error (
      bytes
        "key: 'ArtifactRef.Kind' Error:Field validation for 'Kind' failed on the 'required' tag")
score_error (struct_error e) = e

abbrev pub wrap_text : Bytes → Err → Err
wrap_text message e = wrapped (message ++ error_text e) e

pub record RepairPolicy : Type 0 where
  pub max_attempts : ℤ
  pub allow_transport_repairs : Bool

-- `repairPolicy != nil && repairPolicy.AllowTransportRepairs`, and what `enableRepair` is.
abbrev allows_transport : Option RepairPolicy → Bool
allows_transport none = false
allows_transport (some p) = p.allow_transport_repairs

abbrev enables_repair : Option RepairPolicy → Bool
enables_repair none = true
enables_repair (some p) = ltb_ℤ (pos 0) p.max_attempts

-- `domain.ScoreValidator`: the normalized text and whether it was repaired.
abbrev pub ScoreValidator : Type 0
ScoreValidator = Bytes → Result (Bytes × Bool)

-- The stamps of an answer: that of its score, and that of the score which replaces it.
pub record Stamps : Type 0 where
  pub first : Stamp
  pub again : Stamp
  pub trace_id : Bytes

module _ (F : Floats) where
  open F use {Float}

  -- What the client uses of other packages: `json.Unmarshal` into the data of a score, the checks of
  -- struct tags, and `ValidateAndRepairScore`.
  pub record Judging : Type 0 where
    pub decode : Bytes → Result (ScoreData F)
    pub check_struct : JudgeScore F → Option Err
    pub check_ref : ArtifactRef → Option Err
    pub validate_and_repair : Bytes → Bool → Result (ScoreData F)

  module _ (J : Judging) where
    open J use {decode, check_struct, check_ref, validate_and_repair}

    abbrev pub invalid : Stamp → Bytes → Err → JudgeScore F
    invalid t answer_id e = create_invalid_score F t answer_id e

    abbrev provenance_of : Stamp → Request → Response → ScoreProvenance F
    provenance_of t req resp = record {
      judge_id = judge_id_of F req;
      provider = req.provider;
      model = req.model;
      provider_request_ids = resp.provider_request_ids;
      scored_at = t.now;
    }

    abbrev made :
        Stamps
        → Bytes
        → Response
        → ScoreData F
        → Option (JudgeScore F) × Option ScoreError
        → JudgeScore F
    made t answer_id resp d (o, some e) =
        invalid t.again answer_id (wrap_text (bytes "failed to create score: ") (score_error e))
    made t answer_id resp d (none, none) = invalid t.again answer_id (plain_error [])
    made t answer_id resp d (some s, none) = record (set_score_values F d.value d.confidence s) {
      usage = usage_of F resp;
    }

    -- The making of a score of its data, in both ways of validation.
    unfoldable pub score_of_data : Stamps → Response → Bytes → Request → ScoreData F → JudgeScore F
    unfolding make_score set_score_values create_invalid_score
    score_of_data t resp answer_id req d = made t answer_id resp d (
        make_score F check_struct check_ref t.first.id answer_id t.first.now
          (provenance_of t.first req resp) (inline_evidence F d))

    abbrev of_decoded : Stamps → Response → Bytes → Request → Result (ScoreData F) → JudgeScore F
    of_decoded t resp answer_id req (inl e) =
        invalid t.first answer_id (wrap_text (bytes "failed to parse validated JSON: ") e)
    of_decoded t resp answer_id req (inr d) = score_of_data t resp answer_id req d

    abbrev of_validated : Stamps → Response → Bytes → Request → Result (Bytes × Bool) → JudgeScore F
    of_validated t resp answer_id req (inl e) = invalid t.first answer_id e
    of_validated t resp answer_id req (inr (normalized, repaired)) =
        of_decoded t resp answer_id req (decode normalized)

    unfoldable pub create_score_with_domain_validator :
        Stamps → Response → Bytes → Request → Bytes → ScoreValidator → JudgeScore F
    unfolding score_of_data create_invalid_score
    create_score_with_domain_validator t resp answer_id req content validator =
        of_validated t resp answer_id req (validator content)

    abbrev of_repaired : Stamps → Response → Bytes → Request → Result (ScoreData F) → JudgeScore F
    of_repaired t resp answer_id req (inl e) = invalid t.first answer_id e
    of_repaired t resp answer_id req (inr d) = score_of_data t resp answer_id req d

    unfoldable pub create_score_with_business_validator :
        Stamps → Response → Bytes → Request → Bytes → Bool → JudgeScore F
    unfolding score_of_data create_invalid_score
    create_score_with_business_validator t resp answer_id req content enable_repair =
        of_repaired t resp answer_id req (validate_and_repair content enable_repair)

    -- `processScoreWithValidator`, whose error is always nil.
    unfoldable pub process_score_with_validator :
        Stamps
        → Response
        → Bytes
        → Request
        → Option ScoreValidator
        → Option RepairPolicy
        → JudgeScore F
    unfolding create_score_with_domain_validator create_score_with_business_validator
        apply_transport_repairs
    process_score_with_validator t resp answer_id req validator policy =
        let content =
          if allows_transport policy then apply_transport_repairs resp.content else resp.content in
        elim validator [
          | some v ↦ create_score_with_domain_validator t resp answer_id req content v
          | none ↦
              create_score_with_business_validator t resp answer_id req content
                (enables_repair policy)
        ]
