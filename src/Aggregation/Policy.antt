-- ===== src/Aggregation/Policy.antt =====
-- internal/aggregation/activities.go: the checks of scores, the aggregate of all scores, and the
-- winner among the answers. Metrics, logging and the emission of events are left out.
use go_judgy.Prelude.{
  ℕ, suc, Bool, true, false, not, ◌&&◌, ◌⊎◌, inl, inr, Option, none, some, List, [], ◌∷◌, ◌++◌, map,
  if◌then◌else◌,
}
use go_judgy.Prelude.Int.{ℤ, ◌+ℤ◌, int64}
use go_judgy.Prelude.Bytes.{is_empty_text, Bytes, lookup, insert}
use go_judgy.Floats.{Floats}
use go_judgy.Domain.Score.{Answer, Score, is_valid, aggregate_scores}
use go_judgy.Domain.Winner.{lt_bytes, answer_map_from}
use go_judgy.Aggregation.Sorting.{sort}
use go_judgy.Aggregation.Values.{
  calculate_mean_values, calculate_median_values, calculate_trimmed_mean,
  calculate_trimmed_mean_values,
}

pub data AggregationMethod : Type 0 where
  mean median trimmed_mean : AggregationMethod
  other_method : Bytes → AggregationMethod

pub data AggregationError : Type 0 where
  unsupported_method : Bytes → AggregationError

abbrev same_truth : Bool → Bool → Bool
same_truth true b = b
same_truth false b = not b

module _ {F : Floats} where
  -- `validateScoreReasoning` from an index: the index of the first valid score without exactly one
  -- kind of reasoning.
  unfoldable pub validate_score_reasoning : ℕ → List (Score F) → Option ℕ
  validate_score_reasoning i [] = none
  validate_score_reasoning i (s ∷ scores) =
      let rest = validate_score_reasoning (suc i) scores in
      if s.valid && same_truth s.has_reason_ref (not (is_empty_text s.inline_reasoning))
      then some i
      else rest

  unfoldable pub filter_valid_scores : List (Score F) → List (Score F)
  filter_valid_scores [] = []
  filter_valid_scores (s ∷ scores) =
      let rest = filter_valid_scores scores in if is_valid s then s ∷ rest else rest

  -- `aggregateCosts` from a total.
  unfoldable pub costs_from : ℤ → List (Score F) → ℤ
  costs_from total [] = total
  costs_from total (s ∷ scores) = costs_from (int64 (total +ℤ s.cost_cents)) scores

module _ (F : Floats) where
  open F use {Float, zero_float, lt_float, close}

  pub record AggregationPolicy : Type 0 where
    pub method : AggregationMethod
    pub trim_fraction : Float

  abbrev values_of : List (Score F) → List Float
  values_of scores = map (λ s. s.value) scores

  unfoldable pub apply_aggregation_policy :
      List (Score F) → AggregationPolicy → AggregationError ⊎ Float
  apply_aggregation_policy [] policy = inr zero_float
  apply_aggregation_policy (s ∷ scores) policy = elim policy.method [
    | mean ↦ inr (aggregate_scores F (s ∷ scores))
    | median ↦ inr (calculate_median_values F (values_of (s ∷ scores)))
    | trimmed_mean ↦ inr (
        calculate_trimmed_mean F (values_of (s ∷ scores)) policy.trim_fraction
          (aggregate_scores F (s ∷ scores)))
    | other_method m ↦ inl (unsupported_method m)
  ]

  -- The aggregate of one answer; an unknown method counts as the mean.
  unfoldable pub aggregate_values : AggregationPolicy → List Float → Float
  aggregate_values policy values = elim policy.method [
    | mean ↦ calculate_mean_values F values
    | median ↦ calculate_median_values F values
    | trimmed_mean ↦ calculate_trimmed_mean_values F values policy.trim_fraction
    | other_method m ↦ calculate_mean_values F values
  ]

  abbrev values_at : Bytes → List (Bytes × List Float) → List Float
  values_at id groups = elim (lookup id groups) [ none ↦ [] | some values ↦ values ]

  -- `scoresPerAnswer`: the values of each known answer.
  unfoldable pub group_scores :
      List (Bytes × Answer) → List (Score F) → List (Bytes × List Float) → List (Bytes × List Float)
  group_scores known [] groups = groups
  group_scores known (s ∷ scores) groups = elim (lookup s.answer_id known) [
    | none ↦ group_scores known scores groups
    | some a ↦
        group_scores known scores
          (insert s.answer_id (values_at s.answer_id groups ++ (s.value ∷ [])) groups)
  ]

  abbrev pub aggregate_group : AggregationPolicy → Bytes × List Float → Bytes × Float
  aggregate_group policy (id, values) = (id, aggregate_values policy values)

  -- The highest aggregate, from the first.
  unfoldable pub highest_from : Float → List (Bytes × Float) → Float
  highest_from h [] = h
  highest_from h ((id, v) ∷ aggregated) = highest_from (if lt_float h v then v else h) aggregated

  -- The answers whose aggregate is close to the highest.
  unfoldable pub top_answers : Float → List (Bytes × Float) → List Bytes
  top_answers h [] = []
  top_answers h ((id, v) ∷ aggregated) =
      let rest = top_answers h aggregated in if close v h then id ∷ rest else rest

  abbrev pub winner_and_ties : List Bytes → Option (Bytes × List Bytes)
  winner_and_ties [] = none
  winner_and_ties (id ∷ tied) = some (id, tied)

  -- The choice among the aggregates: the two loops over the map may visit it in different orders.
  unfoldable pub choose_winner :
      List (Bytes × Float) → List (Bytes × Float) → Option (Bytes × List Bytes)
  choose_winner [] again = none
  choose_winner ((id, v) ∷ first) again =
      winner_and_ties (sort lt_bytes (top_answers (highest_from v first) again))

  -- `determineWinnerWithPolicyAggregation`; `none` is an empty winner. `order` and `order_again` are
  -- the orders in which Go visits the map of aggregates.
  unfoldable pub determine_winner_with_policy_aggregation :
      (List (Bytes × Float) → List (Bytes × Float))
      → (List (Bytes × Float) → List (Bytes × Float))
      → List (Score F)
      → List Answer
      → AggregationPolicy
      → Option (Bytes × List Bytes)
  determine_winner_with_policy_aggregation order order_again scores answers policy =
      let aggregated =
        map (aggregate_group policy) (group_scores (answer_map_from [] answers) scores []) in
      choose_winner (order aggregated) (order_again aggregated)
