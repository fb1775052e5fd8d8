-- ===== src/Domain/DimensionLaws.antt =====
-- internal/domain/aggregation.go: the means of the dimensions against a direct definition.
use go_judgy.Prelude.{
  ℕ, suc, ◌+◌, ◌≡◌, ◌∙◌, refl, sym, ap, Bool, true, Bool-cases, inl, inr, Option, none, some, List,
  [], ◌∷◌, ◌++◌, length, ltb, if◌then◌else◌, All, arith,
}
use go_judgy.Prelude.Int.{pos}
use go_judgy.Prelude.Bytes.{
  Bytes, beq, beq→eq, lookup, insert, lookup-insert_self, lookup-insert_ne,
}
use go_judgy.Floats.{Floats}
use go_judgy.Domain.Score.{DimensionScore, Score, is_valid}
use go_judgy.Domain.Dimensions.{
  add_to, add_dimensions, add_scores, dimension_means, non_nil, aggregate_dimensional_scores,
}

module _ (F : Floats) where
  open F use {Float, zero_float, add_float, div_float, of_int}

  -- The values of one dimension in a list of dimensions, and in the valid scores, in their order.
  abbrev values_in : Bytes → List (DimensionScore F) → List Float
  values_in name [] = []
  values_in name (d ∷ ds) =
      let rest = values_in name ds in if beq d.name name then d.value ∷ rest else rest

  abbrev pub values_of : Bytes → List (Score F) → List Float
  values_of name [] = []
  values_of name (s ∷ scores) =
      let rest = values_of name scores in
      if is_valid s then values_in name s.dimensions ++ rest else rest

  abbrev pub sum_from : Float → List Float → Float
  sum_from sum [] = sum
  sum_from sum (v ∷ vs) = sum_from (add_float sum v) vs

  abbrev extend : List Float → Option (Float × ℕ) → Option (Float × ℕ)
  extend [] o = o
  extend (v ∷ vs) o = extend vs (some (add_to F v o))

  extend-++ :
      (us vs : List Float) (o : Option (Float × ℕ)) → extend (us ++ vs) o ≡ extend vs (extend us o)
  extend-++ [] vs o = refl
  extend-++ (u ∷ us) vs o = extend-++ us vs (some (add_to F u o))

  inserted :
      (name : Bytes) (d : DimensionScore F) (sums : List (Bytes × (Float × ℕ)))
      → d.name ≡ name
      → lookup name (insert d.name (add_to F d.value (lookup d.name sums)) sums)
        ≡ some (add_to F d.value (lookup name sums))
  inserted name d sums e = rw e (lookup-insert_self name _ sums)

  lookup-add_dimensions :
      (name : Bytes) (ds : List (DimensionScore F)) (sums : List (Bytes × (Float × ℕ)))
      → lookup name (add_dimensions F ds sums) ≡ extend (values_in name ds) (lookup name sums)
  unfolding add_dimensions
  lookup-add_dimensions name [] sums = refl
  lookup-add_dimensions name (d ∷ ds) sums = elim (Bool-cases (beq d.name name)) [
    | inl same ↦ rw same (
        lookup-add_dimensions name ds _
        ∙ ap (extend (values_in name ds)) (inserted name d sums (beq→eq d.name name same)))
    | inr other ↦ rw other (
        lookup-add_dimensions name ds _
        ∙ ap (extend (values_in name ds)) (lookup-insert_ne name d.name _ sums other))
  ]

  lookup-add_scores :
      (name : Bytes) (scores : List (Score F)) (sums : List (Bytes × (Float × ℕ)))
      → lookup name (add_scores F scores sums) ≡ extend (values_of name scores) (lookup name sums)
  unfolding add_scores
  lookup-add_scores name [] sums = refl
  lookup-add_scores name (s ∷ scores) sums = elim (Bool-cases (is_valid s)) [
    | inl valid ↦
        rw
          (
            valid,
            lookup-add_scores name scores (add_dimensions F s.dimensions sums),
            lookup-add_dimensions name s.dimensions sums,
          )
          (sym (extend-++ (values_in name s.dimensions) (values_of name scores) (lookup name sums)))
    | inr invalid ↦ rw invalid (lookup-add_scores name scores sums)
  ]

  -- The sum and the count of some values, from a sum and a count.
  extend-some :
      (vs : List Float) (sum : Float) (count : ℕ)
      → extend vs (some (sum, count)) ≡ some (sum_from sum vs, count + length vs)
  extend-some [] sum count =
      let same : count ≡ count + 0 = ground arith in ap (λ n. some (sum, n)) same
  extend-some (v ∷ vs) sum count =
      let same : suc count + length vs ≡ count + suc (length vs) = ground arith in
      extend-some vs (add_float sum v) (suc count)
      ∙ ap (λ n. some (sum_from (add_float sum v) vs, n)) same

  abbrev counted : Float × ℕ → Bool
  counted (sum, count) = ltb 0 count

  All-insert :
      (k : Bytes) (p : Float × ℕ) (sums : List (Bytes × (Float × ℕ)))
      → counted p ≡ true
      → All (λ e. counted e.1 ≡ true) sums
      → All (λ e. counted e.1 ≡ true) (insert k p sums)
  All-insert k p [] h all = (h, tt)
  All-insert k p ((j, q) ∷ sums) h all = elim (Bool-cases (beq j k)) [
    | inl same ↦ rw same (h, all.1)
    | inr other ↦ rw other (all.0, All-insert k p sums h all.1)
  ]

  abbrev mean_of : Option (Float × ℕ) → Option Float
  mean_of none = none
  mean_of (some (sum, count)) = some (div_float sum (of_int (pos count)))

  lookup-dimension_means :
      (name : Bytes) (sums : List (Bytes × (Float × ℕ)))
      → All (λ e. counted e.1 ≡ true) sums
      → lookup name (dimension_means F sums) ≡ mean_of (lookup name sums)
  unfolding dimension_means
  lookup-dimension_means name [] all = refl
  lookup-dimension_means name ((j, (sum, count)) ∷ sums) all = elim (Bool-cases (beq j name)) [
    | inl same ↦ rw (all.0, same) refl
    | inr other ↦ rw (all.0, other) (lookup-dimension_means name sums all.1)
  ]

  counted-add_to : (v : Float) (o : Option (Float × ℕ)) → counted (add_to F v o) ≡ true
  counted-add_to v none = refl
  counted-add_to v (some (sum, count)) = ground arith

  All-add_dimensions :
      (ds : List (DimensionScore F)) (sums : List (Bytes × (Float × ℕ)))
      → All (λ e. counted e.1 ≡ true) sums
      → All (λ e. counted e.1 ≡ true) (add_dimensions F ds sums)
  unfolding add_dimensions
  All-add_dimensions [] sums all = all
  All-add_dimensions (d ∷ ds) sums all =
      All-add_dimensions ds _
        (All-insert d.name _ sums (counted-add_to d.value (lookup d.name sums)) all)

  All-add_scores :
      (scores : List (Score F)) (sums : List (Bytes × (Float × ℕ)))
      → All (λ e. counted e.1 ≡ true) sums
      → All (λ e. counted e.1 ≡ true) (add_scores F scores sums)
  unfolding add_scores
  All-add_scores [] sums all = all
  All-add_scores (s ∷ scores) sums all = elim (Bool-cases (is_valid s)) [
    | inl valid ↦ rw valid (All-add_scores scores _ (All-add_dimensions s.dimensions sums all))
    | inr invalid ↦ rw invalid (All-add_scores scores sums all)
  ]

  abbrev pub in_means : Bytes → Option (List (Bytes × Float)) → Option Float
  in_means name none = none
  in_means name (some means) = lookup name means

  -- The sum of the values from the first on, over their number.
  abbrev pub mean_of_values : List Float → Option Float
  mean_of_values [] = none
  mean_of_values (v ∷ vs) =
      some (div_float (sum_from zero_float (v ∷ vs)) (of_int (pos (length (v ∷ vs)))))

  mean_of-extend : (vs : List Float) → mean_of (extend vs none) ≡ mean_of_values vs
  mean_of-extend [] = refl
  mean_of-extend (v ∷ vs) =
      let same : 1 + length vs ≡ suc (length vs) = ground arith in
      ap mean_of (extend-some vs (add_float zero_float v) 1)
      ∙ ap (λ n. some (div_float (sum_from zero_float (v ∷ vs)) (of_int (pos n)))) same

  in_means-non_nil :
      (name : Bytes) (sums : List (Bytes × (Float × ℕ)))
      → All (λ e. counted e.1 ≡ true) sums
      → in_means name (non_nil F sums) ≡ mean_of (lookup name sums)
  in_means-non_nil name [] all = refl
  in_means-non_nil name (s ∷ sums) all = lookup-dimension_means name (s ∷ sums) all

  -- In the result of `AggregateDimensionalScores`, the entry of a dimension is the mean of its values
  -- in the valid scores, summed in their order, and there is none exactly when there is no value.
  pub aggregate_dimensional_scores-mean :
      (name : Bytes) (scores : List (Score F))
      → in_means name (aggregate_dimensional_scores F scores)
        ≡ mean_of_values (values_of name scores)
  unfolding aggregate_dimensional_scores
  aggregate_dimensional_scores-mean name [] = refl
  aggregate_dimensional_scores-mean name (s ∷ scores) =
      in_means-non_nil name (add_scores F (s ∷ scores) []) (All-add_scores (s ∷ scores) [] tt)
      ∙ (ap mean_of (lookup-add_scores name (s ∷ scores) [])
          ∙ mean_of-extend (values_of name (s ∷ scores)))
