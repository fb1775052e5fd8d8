-- ===== src/Business/Validation.antt =====
-- internal/llm/business/validation.go: the validation and the repair of judged scores, and the checks of
-- responses. JSON, regular expressions and `x <= 100` are over parameters; texts are ASCII.
use go_judgy.Prelude.{
  ℕ, zero, suc, ◌-◌, Bool, true, false, not, ◌&&◌, ◌||◌, Option, none, some, inl, inr, List, [],
  ◌∷◌, ◌++◌, if◌then◌else◌, ◌==◌,
}
use go_judgy.Prelude.Int.{pos, ltb_ℤ}
use go_judgy.Prelude.Bytes.{Bytes, bytes, beq, is_empty_text}
use go_judgy.Errors.Types.{Err, validation_error}
use go_judgy.Errors.Text.{contains}
use go_judgy.Floats.{Floats}
use go_judgy.Domain.Score.{DimensionScore}
use go_judgy.Transport.{Response}
use go_judgy.Transport.Words.{trim_space}
use go_judgy.Transport.Keys.{Result}
use go_judgy.Transport.Conversion.{ScoreData}

-- `strings.Count` of one byte, and so many of them at the end of a text.
unfoldable count_byte : ℕ → Bytes → ℕ
count_byte c [] = 0
count_byte c (d ∷ cs) = if d == c then suc (count_byte c cs) else count_byte c cs

unfoldable replicate : ℕ → ℕ → Bytes
replicate zero c = []
replicate (suc n) c = c ∷ replicate n c

-- `strings.ReplaceAll` of one byte by one byte.
unfoldable pub replace_byte : ℕ → ℕ → Bytes → Bytes
replace_byte old new [] = []
replace_byte old new (c ∷ cs) = (if c == old then new else c) ∷ replace_byte old new cs

-- The text from the first `{`, and up to the last `}`, where there are such.
abbrev from_brace : Bytes → Bytes
from_brace [] = []
from_brace (c ∷ cs) = if c == b'{' then c ∷ cs else from_brace cs

abbrev to_brace : Bytes → Bytes
to_brace [] = []
to_brace (c ∷ cs) =
    let rest = to_brace cs in
    if is_empty_text rest then (if c == b'}' then c ∷ [] else []) else c ∷ rest

-- What `regexp` answers: the text without trailing commas, the text with quoted keys, and the first
-- group of the first pattern of `extractJSON` that matches.
pub record Patterns : Type 0 where
  pub drop_commas : Bytes → Bytes
  pub quote_keys : Bytes → Bytes
  pub fenced : Bytes → Option Bytes

abbrev close_all : Bytes → Bytes
close_all s =
    let braces = count_byte b'{' s - count_byte b'}' s in
    let brackets = count_byte b'[' s - count_byte b']' s in
    s ++ (replicate braces b'}' ++ replicate brackets b']')

abbrev requoted : Bytes → Bytes
requoted s = if not (contains s (34 ∷ [])) && contains s (39 ∷ []) then replace_byte 39 34 s else s

-- `repairJSON`; an ASCII text has no byte order mark.
unfoldable pub repair_json : Patterns → Bytes → Bytes
unfolding count_byte replicate replace_byte contains trim_space
repair_json p content = trim_space (requoted (p.quote_keys (close_all (p.drop_commas content))))

abbrev braced : Bytes → Bytes → Bytes
braced content found = if is_empty_text found then content else found

-- `extractJSON`.
unfoldable pub extract_json : Patterns → Bytes → Bytes
extract_json p content = elim (p.fenced content) [
  | some group ↦ group
  | none ↦ braced content (to_brace (from_brace content))
]

abbrev pub default_reasoning : Bytes
default_reasoning = bytes "No reasoning provided"

module _ (F : Floats) where
  open F use {Float, zero_float, one_float, lt_float, eq_float, div_float, of_int}

  pub data ScoreDataError : Type 0 where
    score_value_out_of_range confidence_out_of_range reasoning_empty : ScoreDataError
    dimension_value_out_of_range dimension_name_empty : ℕ → ScoreDataError

  -- `x < 0 || x > 1`.
  abbrev pub out_of_unit : Float → Bool
  out_of_unit x = lt_float x zero_float || lt_float one_float x

  abbrev check_dimensions : ℕ → List (DimensionScore F) → Option ScoreDataError
  check_dimensions i [] = none
  check_dimensions i (d ∷ ds) =
      if out_of_unit d.value
      then some (dimension_value_out_of_range i)
      else if is_empty_text d.name
      then some (dimension_name_empty i)
      else check_dimensions (suc i) ds

  -- `validateScoreData`.
  unfoldable pub validate_score_data : ScoreData F → Option ScoreDataError
  validate_score_data s =
      if out_of_unit s.value
      then some score_value_out_of_range
      else if out_of_unit s.confidence
      then some confidence_out_of_range
      else if is_empty_text (trim_space s.reasoning)
      then some reasoning_empty
      else check_dimensions 0 s.dimensions

  -- `x <= 100`.
  abbrev pub at_most_100 : Float → Bool
  at_most_100 x = lt_float x (of_int (pos 100)) || eq_float x (of_int (pos 100))

  -- A value brought into the range, a percentage taken as such; and whether it was changed.
  unfoldable pub clamp_percentage : Float → Float × Bool
  clamp_percentage x =
      if lt_float x zero_float
      then (zero_float, true)
      else if lt_float one_float x
      then (if at_most_100 x then (div_float x (of_int (pos 100)), true) else (one_float, true))
      else (x, false)

  abbrev pub repair_reasoning : Bytes → Bytes × Bool
  repair_reasoning r =
      if is_empty_text (trim_space r) then (default_reasoning, true) else (r, false)

  -- The loop over the dimensions, whose names stay.
  unfoldable pub repair_dimensions : List (DimensionScore F) → List (DimensionScore F) × Bool
  unfolding clamp_percentage
  repair_dimensions [] = ([], false)
  repair_dimensions (d ∷ ds) =
      let (value, changed) = clamp_percentage d.value in
      let (rest, more) = repair_dimensions ds in
      (record d { value = value } ∷ rest, changed || more)

  -- `repairScoreData`; `none` when nothing was changed.
  unfoldable pub repair_score_data : ScoreData F → Option (ScoreData F)
  repair_score_data s =
      let (value, v) = clamp_percentage s.value in
      let (confidence, c) = clamp_percentage s.confidence in
      let (reasoning, r) = repair_reasoning s.reasoning in
      let (dimensions, d) = repair_dimensions s.dimensions in
      if v || (c || (r || d))
      then some (record {
        value = value;
        confidence = confidence;
        reasoning = reasoning;
        dimensions = dimensions;
      })
      else none

  module _ (p : Patterns) (decode : Bytes → Result (ScoreData F)) where
    abbrev pub or_next : Option (ScoreData F) → Option (ScoreData F) → Option (ScoreData F)
    or_next (some s) o = some s
    or_next none o = o

    -- A decoded score if it is valid, else its repair if that is enabled.
    unfoldable pub accept : Bool → Result (ScoreData F) → Option (ScoreData F)
    accept enable (inl e) = none
    accept enable (inr s) = elim (validate_score_data s) [
      | none ↦ some s
      | some e ↦ if enable then repair_score_data s else none
    ]

    unfoldable pub try_parse_repaired_json : Bytes → Option (ScoreData F)
    try_parse_repaired_json content =
        let repaired = repair_json p content in
        if beq repaired content then none else accept true (decode repaired)

    unfoldable pub try_parse_extracted_json : Bytes → Bool → Option (ScoreData F)
    try_parse_extracted_json content enable =
        let extracted = extract_json p content in
        if is_empty_text extracted || beq extracted content
        then none
        else accept enable (decode extracted)

    abbrev invalid_format : Err
    invalid_format =
        validation_error (record { field = []; message = bytes "invalid score response format" })

    abbrev pub found : Option (ScoreData F) → Result (ScoreData F)
    found none = inl invalid_format
    found (some s) = inr s

    -- `ValidateAndRepairScore`: the three attempts.
    unfoldable pub validate_and_repair_score : Bytes → Bool → Result (ScoreData F)
    validate_and_repair_score content enable = found (
        or_next (accept enable (decode content)) (
          or_next (if enable then try_parse_repaired_json content else none)
            (try_parse_extracted_json content enable)))

pub data ResponseError : Type 0 where
  nil_response empty_response_content negative_token_count empty_generation : ResponseError

unfoldable pub validate_generation_response : Bytes → Option ResponseError
unfolding trim_space
validate_generation_response content =
    if is_empty_text (trim_space content) then some empty_generation else none

abbrev check_response : Response → Option ResponseError
check_response resp =
    if is_empty_text resp.content && not (beq resp.finish_reason (bytes "tool_use"))
    then some empty_response_content
    else if ltb_ℤ resp.usage.total_tokens (pos 0)
    then some negative_token_count
    else none

-- `ValidateProviderResponse`; `none` is a nil pointer.
unfoldable pub validate_provider_response : Option Response → Option ResponseError
validate_provider_response none = some nil_response
validate_provider_response (some resp) = check_response resp
