-- ===== src/Aggregation/Means.antt =====
-- internal/aggregation/activities.go and internal/domain/aggregation.go: the two ways to the mean.
use go_judgy.Prelude.{
  ℕ, suc, ◌≡◌, ◌∙◌, refl, sym, ap, true, false, Bool-cases, inl, inr, List, [], ◌∷◌,
}
use go_judgy.Floats.{Floats}
use go_judgy.Domain.Score.{Score, is_valid, sum_valid, mean_of, aggregate_scores}
use go_judgy.Aggregation.Policy.{
  AggregationPolicy, mean, filter_valid_scores, apply_aggregation_policy,
}

module _ (F : Floats) where
  open F use {Float, zero_float, add_float}

  sum_valid-valid :
      (s : Score F) (scores : List (Score F)) (sum : Float) (count : ℕ)
      → is_valid s ≡ true
      → sum_valid F (s ∷ scores) sum count ≡ sum_valid F scores (add_float sum s.value) (suc count)
  unfolding sum_valid
  sum_valid-valid s scores sum count valid = rw valid refl

  sum_valid-invalid :
      (s : Score F) (scores : List (Score F)) (sum : Float) (count : ℕ)
      → is_valid s ≡ false
      → sum_valid F (s ∷ scores) sum count ≡ sum_valid F scores sum count
  unfolding sum_valid
  sum_valid-invalid s scores sum count invalid = rw invalid refl

  sum_valid-filter_valid_scores :
      (scores : List (Score F)) (sum : Float) (count : ℕ)
      → sum_valid F (filter_valid_scores scores) sum count ≡ sum_valid F scores sum count
  unfolding filter_valid_scores
  sum_valid-filter_valid_scores [] sum count = refl
  sum_valid-filter_valid_scores (s ∷ scores) sum count = elim (Bool-cases (is_valid s)) [
    | inl valid ↦
        let kept : filter_valid_scores (s ∷ scores) ≡ s ∷ filter_valid_scores scores =
          rw valid refl in
        ap (λ l. sum_valid F l sum count) kept
        ∙ sum_valid-valid s (filter_valid_scores scores) sum count valid
        ∙ sum_valid-filter_valid_scores scores (add_float sum s.value) (suc count)
        ∙ sym (sum_valid-valid s scores sum count valid)
    | inr invalid ↦
        let kept : filter_valid_scores (s ∷ scores) ≡ filter_valid_scores scores =
          rw invalid refl in
        ap (λ l. sum_valid F l sum count) kept
        ∙ sum_valid-filter_valid_scores scores sum count
        ∙ sym (sum_valid-invalid s scores sum count invalid)
  ]

  aggregate_scores-sum :
      (scores : List (Score F))
      → aggregate_scores F scores ≡ mean_of F (sum_valid F scores zero_float 0)
  unfolding aggregate_scores sum_valid
  aggregate_scores-sum [] = refl
  aggregate_scores-sum (s ∷ scores) = refl

  mean-of_valid :
      (valid : List (Score F)) (policy : AggregationPolicy F)
      → policy.method ≡ mean
      → apply_aggregation_policy F valid policy ≡ inr (aggregate_scores F valid)
  unfolding apply_aggregation_policy sum_valid
  mean-of_valid [] policy e = ap inr (sym (aggregate_scores-sum []))
  mean-of_valid (s ∷ valid) policy e = rw e refl

  -- Under the mean policy the aggregate of the scores that pass the filter is the mean that
  -- `domain.AggregateScores` gives for all scores, also when none passes.
  pub mean-filter_valid_scores :
      (scores : List (Score F)) (policy : AggregationPolicy F)
      → policy.method ≡ mean
      → apply_aggregation_policy F (filter_valid_scores scores) policy
        ≡ inr (aggregate_scores F scores)
  mean-filter_valid_scores scores policy e =
      mean-of_valid (filter_valid_scores scores) policy e
      ∙ ap inr (
          aggregate_scores-sum (filter_valid_scores scores)
          ∙ ap (mean_of F) (sum_valid-filter_valid_scores scores zero_float 0)
          ∙ sym (aggregate_scores-sum scores))
