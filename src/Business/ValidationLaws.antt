-- ===== src/Business/ValidationLaws.antt =====
-- What `ValidateAndRepairScore` promises of a score.
use go_judgy.Prelude.{
  Bool, true, false, Option, none, some, inl, inr, if◌then◌else◌, ◌≡◌, refl, subst, arith,
  Bool-cases, Option-cases,
}
use go_judgy.Prelude.Int.{pos}
use go_judgy.Prelude.Bytes.{Bytes, is_empty_text}
use go_judgy.Floats.{Floats}
use go_judgy.Transport.Words.{trim_space, trim_right, trim_left, is_space}
use go_judgy.Transport.Keys.{Result}
use go_judgy.Transport.Conversion.{ScoreData}
use go_judgy.Business.Validation.{
  Patterns, out_of_unit, at_most_100, validate_score_data, clamp_percentage, repair_score_data,
  accept, try_parse_repaired_json, try_parse_extracted_json, validate_and_repair_score, repair_json,
  extract_json, repair_reasoning, or_next, found, default_reasoning,
}

default-some : is_empty_text (trim_space default_reasoning) ≡ false
unfolding trim_space trim_right trim_left is_space
default-some = refl

module _ (F : Floats) where
  open F use {Float, zero_float, one_float, lt_float, div_float, of_int}

  -- What the range needs of `<` and `/`: the bounds lie in it, and so does a hundredth of a number
  -- above 1 that is at most 100.
  pub record UnitLaws : Type 0 where
    pub zero_in : out_of_unit F zero_float ≡ false
    pub one_in : out_of_unit F one_float ≡ false
    pub percent_in :
        (x : Float)
        → lt_float one_float x ≡ true
        → at_most_100 F x ≡ true
        → out_of_unit F (div_float x (of_int (pos 100))) ≡ false

  -- Value and confidence lie in the range, and there is a reasoning.
  pub record Sound (s : ScoreData F) : Type 0 where
    pub value_in : out_of_unit F s.value ≡ false
    pub confidence_in : out_of_unit F s.confidence ≡ false
    pub reasoned : is_empty_text (trim_space s.reasoning) ≡ false

  module _ (laws : UnitLaws) where
    clamp_percentage-in : (x : Float) → out_of_unit F (clamp_percentage F x).0 ≡ false
    unfolding clamp_percentage
    clamp_percentage-in x = ground (arith, laws.zero_in, laws.one_in, laws.percent_in x)

    validate_score_data-Sound : (s : ScoreData F) → validate_score_data F s ≡ none → Sound s
    unfolding validate_score_data
    validate_score_data-Sound s h = ground arith

    repair_reasoning-some :
        (r : Bytes) → is_empty_text (trim_space (repair_reasoning F r).0) ≡ false
    repair_reasoning-some r = elim (Bool-cases (is_empty_text (trim_space r))) [
      | inl e ↦ rw e default-some
      | inr e ↦ rw e e
    ]

    repair_score_data-Sound : (s s' : ScoreData F) → repair_score_data F s ≡ some s' → Sound s'
    unfolding repair_score_data
    repair_score_data-Sound s s' h = ground (
      arith,
      clamp_percentage-in s.value,
      clamp_percentage-in s.confidence,
      repair_reasoning-some s.reasoning,
    )

    module _ (p : Patterns) (decode : Bytes → Result (ScoreData F)) where
      accept-Sound :
          (enable : Bool) (r : Result (ScoreData F)) (s' : ScoreData F)
          → accept F p decode enable r ≡ some s'
          → Sound s'
      unfolding accept
      accept-Sound enable (inl e) s' h = cc
      accept-Sound enable (inr s) s' h = elim (Option-cases (validate_score_data F s)) [
        | inl fine ↦
            let same : s ≡ s' = cc (rw (fine, accept) at h) in
            subst Sound same (validate_score_data-Sound s fine)
        | inr (e, bad) ↦ elim (Bool-cases enable) [
          | inl on ↦ repair_score_data-Sound s s' (rw (bad, on, accept) at h)
          | inr off ↦ cc (rw (bad, off, accept) at h)
        ]
      ]

      try_parse_repaired_json-Sound :
          (content : Bytes) (s' : ScoreData F)
          → try_parse_repaired_json F p decode content ≡ some s'
          → Sound s'
      unfolding try_parse_repaired_json
      try_parse_repaired_json-Sound content s' h =
          let text = repair_json p content in ground (arith, accept-Sound true (decode text) s')

      try_parse_extracted_json-Sound :
          (content : Bytes) (enable : Bool) (s' : ScoreData F)
          → try_parse_extracted_json F p decode content enable ≡ some s'
          → Sound s'
      unfolding try_parse_extracted_json
      try_parse_extracted_json-Sound content enable s' h =
          let text = extract_json p content in ground (arith, accept-Sound enable (decode text) s')

      if_repaired-Sound :
          (content : Bytes) (enable : Bool) (s' : ScoreData F)
          → (if enable then try_parse_repaired_json F p decode content else none) ≡ some s'
          → Sound s'
      if_repaired-Sound content true s' h = try_parse_repaired_json-Sound content s' h
      if_repaired-Sound content false s' h = cc

      or_next-Sound :
          (o o' : Option (ScoreData F)) (s' : ScoreData F)
          → (o ≡ some s' → Sound s')
          → (o' ≡ some s' → Sound s')
          → or_next F p decode o o' ≡ some s'
          → Sound s'
      or_next-Sound none o' s' first second h = second h
      or_next-Sound (some s) o' s' first second h = first h

      found-some :
          (o : Option (ScoreData F)) (s' : ScoreData F) → found F p decode o ≡ inr s' → o ≡ some s'
      found-some none s' h = cc
      found-some (some s) s' h = cc

      -- With floats that obey `UnitLaws`, whatever text the model wrote, and whether repair is enabled
      -- or not: a score that `ValidateAndRepairScore` returns has a value and a confidence neither below
      -- 0 nor above 1, and a reasoning that is not blank.
      pub validate_and_repair_score-Sound :
          (content : Bytes) (enable : Bool) (s' : ScoreData F)
          → validate_and_repair_score F p decode content enable ≡ inr s'
          → Sound s'
      unfolding validate_and_repair_score
      validate_and_repair_score-Sound content enable s' h =
          or_next-Sound (accept F p decode enable (decode content)) _ s'
            (accept-Sound enable (decode content) s')
            (or_next-Sound (if enable then try_parse_repaired_json F p decode content else none)
              (try_parse_extracted_json F p decode content enable) s'
              (if_repaired-Sound content enable s')
              (try_parse_extracted_json-Sound content enable s'))
            (found-some _ s' h)
