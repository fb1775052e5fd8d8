-- ===== src/Aggregation/Tests.antt =====
-- internal/aggregation: runs on small inputs, and each theorem at an input that meets its
-- hypotheses.
use go_judgy.Prelude.{ℕ, ◌≡◌, refl, true, some, List, [], ◌∷◌, arith}
use mathlib.Core.List.{reverse}
use mathlib.Core.List.Permᴰ
use go_judgy.Prelude.Int.{pos}
use go_judgy.Prelude.Bytes.{Bytes, bytes}
use go_judgy.Floats.Whole.{whole}
use go_judgy.Domain.Score.{Answer, Score}
use go_judgy.Domain.Winner.{answer_map_from}
use go_judgy.Domain.WinnerLaws.{IsOrdered}
use go_judgy.Aggregation.Sorting.{sort, insert_sorted, IsLinear}
use go_judgy.Aggregation.Values.{calculate_median_values, calculate_mean_values}
use go_judgy.Aggregation.Policy.{
  AggregationPolicy, mean, aggregate_values, group_scores, highest_from, top_answers, choose_winner,
  determine_winner_with_policy_aggregation,
}
use go_judgy.Aggregation.Order.{IsTolerant, determine_winner-order}

abbrev score : Bytes → ℕ → Score whole
score answer value = record {
  id = bytes "s";
  answer_id = answer;
  value = value;
  has_reason_ref = true;
  inline_reasoning = [];
  dimensions = [];
  tokens_used = pos 10;
  cost_cents = pos 2;
  valid = true;
  error = [];
}

abbrev answers : List Answer
answers = record { id = bytes "a" } ∷ record { id = bytes "b" } ∷ []

abbrev scores : List (Score whole)
scores = score (bytes "b") 4 ∷ score (bytes "a") 3 ∷ score (bytes "b") 2 ∷ []

abbrev policy : AggregationPolicy whole
policy = record { method = mean; trim_fraction = 0 }

median_test : calculate_median_values whole (5 ∷ 1 ∷ 3 ∷ []) ≡ 3
unfolding calculate_median_values sort insert_sorted
median_test = refl

-- Both answers have mean 3; the tie goes to the smaller identifier.
tie_test :
    determine_winner_with_policy_aggregation whole (λ l. l) (λ l. l) scores answers policy
    ≡ some (bytes "a", bytes "b" ∷ [])
unfolding determine_winner_with_policy_aggregation aggregate_values group_scores highest_from
    top_answers choose_winner calculate_mean_values sort insert_sorted answer_map_from
tie_test = refl

whole-IsOrdered : IsOrdered whole
whole-IsOrdered = record {
  irreflexive = λ a. ground arith;
  transitive = λ a b c h k. ground (arith, h, k);
  congruent = λ a b c h. ground (arith, h);
}

whole-IsTolerant : IsTolerant whole
whole-IsTolerant x a b i j h k = ground (arith, h, k)

whole-IsLinear : IsLinear whole.lt_float
whole-IsLinear = record {
  asymmetric = λ a b h. ground (arith, h);
  transitive = λ a b c h k. ground (arith, h, k);
  connected = λ a b h k. ground (arith, h, k);
}

determine_winner-order_example :
    determine_winner_with_policy_aggregation whole reverse (λ l. l) scores answers policy
    ≡ determine_winner_with_policy_aggregation whole (λ l. l) (λ l. l) scores answers policy
unfolding aggregate_values group_scores calculate_mean_values answer_map_from
determine_winner-order_example =
    determine_winner-order whole reverse (λ l. l) scores answers policy Permᴰ.reverse Permᴰ.refl
      whole-IsOrdered whole-IsTolerant (refl, (refl, tt))
