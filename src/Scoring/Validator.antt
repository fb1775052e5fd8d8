-- ===== src/Scoring/Validator.antt =====
-- internal/scoring/validator.go: the validator that the scoring activity gives to the client. JSON, the
-- pattern for unquoted keys, and the errors of Temporal are parameters; texts are ASCII.
use go_judgy.Prelude.{
  ℕ, ◌-◌, Bool, true, false, not, ◌&&◌, ◌||◌, Option, none, some, inl, inr, [], ◌∷◌, ◌++◌, length,
  ltb, ◌==◌, if◌then◌else◌, ◌≡◌, refl, sym, Bool-cases,
}
use go_judgy.Prelude.Bytes.{Bytes, bytes, beq, beq_refl}
use go_judgy.Errors.Types.{Err, plain_error}
use go_judgy.Errors.Text.{contains, has_prefix}
use go_judgy.Floats.{Floats}
use go_judgy.Business.Validation.{replace_byte}
use go_judgy.Transport.Words.{trim_space}
use go_judgy.Transport.Keys.{Result, Result-cases}
use go_judgy.Client.Repairs.{trim_prefix, trim_suffix, fence}
use go_judgy.Scoring.Batch.{ActivityError, non_retryable}

abbrev min_reasoning_length : ℕ
min_reasoning_length = 10

-- `strings.ReplaceAll` of a text that is not empty, from a place where so many bytes of a match are
-- still to be dropped.
unfoldable replace_from : Bytes → Bytes → ℕ → Bytes → Bytes
replace_from old new skip [] = []
replace_from old new skip (c ∷ cs) =
    let hit = skip == 0 && has_prefix (c ∷ cs) old in
    let rest = replace_from old new (if hit then length old - 1 else skip - 1) cs in
    if hit then new ++ rest else if skip == 0 then c ∷ rest else rest

abbrev replace_all : Bytes → Bytes → Bytes → Bytes
replace_all s old new = replace_from old new 0 s

abbrev drop_commas : Bytes → Bytes
drop_commas s =
    let a = replace_all s (b',' ∷ 10 ∷ b'}' ∷ []) (10 ∷ b'}' ∷ []) in
    let b = replace_all a (b',' ∷ 13 ∷ 10 ∷ b'}' ∷ []) (13 ∷ 10 ∷ b'}' ∷ []) in
    let c = replace_all b (bytes ", }") (bytes " }") in replace_all c (bytes ",}") (bytes "}")

abbrev requoted : Bytes → Bytes
requoted s = if not (contains s (34 ∷ [])) && contains s (39 ∷ []) then replace_byte 39 34 s else s

-- `repairCommonJSONIssues`; `quote_keys` is the replacement of unquoted keys.
unfoldable pub repair_common_json_issues : (Bytes → Bytes) → Bytes → Bytes
unfolding trim_prefix trim_suffix trim_space replace_byte contains replace_from
repair_common_json_issues quote_keys s =
    let unfenced = trim_suffix (trim_prefix (trim_prefix s (bytes "```json")) fence) fence in
    trim_space (requoted (quote_keys (drop_commas unfenced)))

module _ (F : Floats) where
  open F use {Float, zero_float, one_float, lt_float}

  -- The metadata, which no check reads, are left out.
  pub record ScoreSchema : Type 0 where
    pub score : Float
    pub reasoning : Bytes
    pub confidence : Option Float

  pub data SchemaError : Type 0 where
    score_range confidence_range : Float → SchemaError
    reasoning_short : ℕ → SchemaError

  abbrev pub outside : Float → Bool
  outside x = lt_float x zero_float || lt_float one_float x

  abbrev check_confidence : Option Float → Option SchemaError
  check_confidence none = none
  check_confidence (some c) = if outside c then some (confidence_range c) else none

  -- `validateSchema`.
  unfoldable pub validate_schema : ScoreSchema → Option SchemaError
  validate_schema s =
      let n = length (trim_space s.reasoning) in
      if outside s.score
      then some (score_range s.score)
      else if ltb n min_reasoning_length
      then some (reasoning_short n)
      else check_confidence s.confidence

  pub record Decoding : Type 0 where
    pub decode : Bytes → Result ScoreSchema
    pub quote_keys : Bytes → Bytes
    pub schema_error : SchemaError → Err
    pub application_error : ActivityError → Err

  module _ (D : Decoding) where
    open D use {decode, quote_keys, schema_error, application_error}

    abbrev refuse : Bytes → Option Err → Bytes → Result (Bytes × Bool)
    refuse tag cause message = inl (application_error (non_retryable tag cause message))

    -- The checks of a decoded text, in the first attempt and after the repair, with the cause that a
    -- broken rule gives the error.
    abbrev pub checked :
        Bytes
        → Bool
        → (SchemaError → Option Err)
        → Bytes
        → Option SchemaError
        → Result (Bytes × Bool)
    checked text repaired cause_of message none = inr (text, repaired)
    checked text repaired cause_of message (some e) =
        refuse (bytes "scoring schema validation") (cause_of e) message

    abbrev pub of_repaired : Bytes → Result ScoreSchema → Result (Bytes × Bool)
    of_repaired text (inl e) =
        refuse (bytes "scoring schema repair") (some e) (bytes "JSON still invalid after repair")
    of_repaired text (inr s) =
        checked text true (λ e. some (schema_error e))
          (bytes "business rules violated after repair") (validate_schema s)

    abbrev try_repair : Bytes → Bytes → Result (Bytes × Bool)
    try_repair raw text =
        if beq text raw
        then refuse (bytes "scoring schema parsing")
            (some (plain_error (bytes "JSON parse failed"))) (bytes "malformed JSON")
        else of_repaired text (decode text)

    -- The first attempt passes on the outer `err`, nil there, and not the error of the broken rule.
    abbrev pub of_decoded : Bytes → Result ScoreSchema → Result (Bytes × Bool)
    of_decoded raw (inr s) =
        checked raw false (λ e. none) (bytes "business rule violation") (validate_schema s)
    of_decoded raw (inl e) = try_repair raw (repair_common_json_issues quote_keys raw)

    -- `Validate`.
    unfoldable pub validate : Bytes → Result (Bytes × Bool)
    validate raw = of_decoded raw (decode raw)

    checked-ok :
        (text out message : Bytes) (repaired r : Bool) (cause_of : SchemaError → Option Err)
        (o : Option SchemaError)
        → checked text repaired cause_of message o ≡ inr (out, r)
        → (o ≡ none) × (text ≡ out) × (repaired ≡ r)
    checked-ok text out message repaired r cause_of none h = (refl, cc, cc)
    checked-ok text out message repaired r cause_of (some e) h = cc

    -- A text decodes to a schema that passes the rules.
    abbrev pub Accepted : Bytes → Type 0
    Accepted text = (s : ScoreSchema) × (decode text ≡ inr s) × (validate_schema s ≡ none)

    of_repaired-Accepted :
        (text out : Bytes) (r : Bool)
        → of_repaired text (decode text) ≡ inr (out, r)
        → Accepted out × (r ≡ true) × (text ≡ out)
    of_repaired-Accepted text out r h = elim (Result-cases (decode text)) [
      | inl (e, failed) ↦ cc (rw failed at h)
      | inr (s, ok) ↦
          let (rules, same, flag) =
            checked-ok text out (bytes "business rules violated after repair") true r
              (λ e. some (schema_error e)) (validate_schema s) (rw ok at h) in
          ((s, rw (← same) ok, rules), sym flag, same)
    ]

    -- A text that the validator returns decodes to a schema that passes its rules, and it is
    -- reported as repaired exactly when it is not the text of the model.
    pub validate-Accepted :
        (raw out : Bytes) (r : Bool)
        → validate raw ≡ inr (out, r)
        → Accepted out × (r ≡ not (beq out raw))
    unfolding validate
    validate-Accepted raw out r h = elim (Result-cases (decode raw)) [
      | inr (s, ok) ↦
          let (rules, same, flag) =
            checked-ok raw out (bytes "business rule violation") false r (λ e. none)
              (validate_schema s) (rw ok at h) in
          ((s, rw (← same) ok, rules), rw (← same, beq_refl raw) (sym flag))
      | inl (e, failed) ↦
          let text = repair_common_json_issues quote_keys raw in
          elim (Bool-cases (beq text raw)) [
            | inl unchanged ↦ cc (rw (failed, unchanged) at h)
            | inr changed ↦
                let (accepted, flag, same) =
                  of_repaired-Accepted text out r (rw (failed, changed) at h) in
                (accepted, rw (← same, changed) flag)
          ]
    ]
