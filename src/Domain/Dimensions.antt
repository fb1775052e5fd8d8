-- ===== src/Domain/Dimensions.antt =====
-- internal/domain/score.go and aggregation.go: the dimensions of a score, and their means.
use go_judgy.Prelude.{
  ℕ, suc, Bool, true, false, Option, none, some, List, [], ◌∷◌, ltb, if◌then◌else◌,
}
use go_judgy.Prelude.Int.{pos}
use go_judgy.Prelude.Bytes.{Bytes, bytes, beq, lookup, insert}
use go_judgy.Floats.{Floats}
use go_judgy.Domain.Score.{DimensionScore, Score, is_valid}
use go_judgy.Domain.Judgement.{JudgeScore, clamp01}

module _ (F : Floats) where
  open F use {Float, zero_float, lt_float, add_float, mul_float, div_float, of_int, hundredths}

  -- `DefaultDimensionWeights`.
  unfoldable pub default_dimension_weights : List (Bytes × Float)
  default_dimension_weights =
      (bytes "correctness", hundredths 40)
      ∷ (bytes "completeness", hundredths 25)
      ∷ (bytes "safety", hundredths 15)
      ∷ (bytes "clarity", hundredths 10)
      ∷ (bytes "relevance", hundredths 10)
      ∷ []

  -- The loop of `ComputeOverall` from the two sums.
  unfoldable pub weigh :
      List (Bytes × Float) → List (DimensionScore F) → Float → Float → Float × Float
  weigh weights [] weighted total = (weighted, total)
  weigh weights (d ∷ ds) weighted total =
      let (weighted', total') = elim (lookup d.name weights) as (λ o. Float × Float) [
        | none ↦ (weighted, total)
        | some w ↦ (add_float weighted (mul_float d.value w), add_float total w)
      ] in
      weigh weights ds weighted' total'

  abbrev pub or_default : Option (List (Bytes × Float)) → List (Bytes × Float)
  or_default none = default_dimension_weights
  or_default (some weights) = weights

  abbrev pub put_overall : Float × Float → JudgeScore F → JudgeScore F
  put_overall (weighted, total) s =
      if lt_float zero_float total
      then record s { value = clamp01 F (div_float weighted total) }
      else s

  -- `ComputeOverall`; `none` is a nil map of weights.
  unfoldable pub compute_overall : Option (List (Bytes × Float)) → JudgeScore F → JudgeScore F
  unfolding weigh default_dimension_weights clamp01
  compute_overall weights s = elim s.evidence.dimensions [
    | [] ↦ s
    | d ∷ ds ↦ put_overall (weigh (or_default weights) (d ∷ ds) zero_float zero_float) s
  ]

  -- The loop of `GetDimensionScore`.
  unfoldable pub find_dimension : Bytes → List (DimensionScore F) → Option Float
  find_dimension name [] = none
  find_dimension name (d ∷ ds) =
      let rest = find_dimension name ds in if beq d.name name then some d.value else rest

  unfoldable pub get_dimension_score : Bytes → JudgeScore F → Float × Bool
  unfolding find_dimension
  get_dimension_score name s = elim (find_dimension name s.evidence.dimensions) [
    | none ↦ (zero_float, false)
    | some v ↦ (v, true)
  ]

  -- The sum and the count of a dimension: the two maps of `AggregateDimensionalScores` have the
  -- same keys.
  abbrev pub add_to : Float → Option (Float × ℕ) → Float × ℕ
  add_to v none = (add_float zero_float v, 1)
  add_to v (some (sum, count)) = (add_float sum v, suc count)

  unfoldable pub add_dimensions :
      List (DimensionScore F) → List (Bytes × (Float × ℕ)) → List (Bytes × (Float × ℕ))
  add_dimensions [] sums = sums
  add_dimensions (d ∷ ds) sums =
      add_dimensions ds (insert d.name (add_to d.value (lookup d.name sums)) sums)

  unfoldable pub add_scores :
      List (Score F) → List (Bytes × (Float × ℕ)) → List (Bytes × (Float × ℕ))
  unfolding add_dimensions
  add_scores [] sums = sums
  add_scores (s ∷ scores) sums =
      let with_it = add_scores scores (add_dimensions s.dimensions sums) in
      let without_it = add_scores scores sums in if is_valid s then with_it else without_it

  unfoldable pub dimension_means : List (Bytes × (Float × ℕ)) → List (Bytes × Float)
  dimension_means [] = []
  dimension_means ((name, (sum, count)) ∷ sums) =
      let rest = dimension_means sums in
      if ltb 0 count then (name, div_float sum (of_int (pos count))) ∷ rest else rest

  abbrev pub non_nil : List (Bytes × (Float × ℕ)) → Option (List (Bytes × Float))
  non_nil [] = none
  non_nil (s ∷ sums) = some (dimension_means (s ∷ sums))

  -- `AggregateDimensionalScores`; `none` is a nil map.
  unfoldable pub aggregate_dimensional_scores : List (Score F) → Option (List (Bytes × Float))
  unfolding add_scores dimension_means
  aggregate_dimensional_scores [] = none
  aggregate_dimensional_scores (s ∷ scores) = non_nil (add_scores (s ∷ scores) [])
