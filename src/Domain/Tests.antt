-- ===== src/Domain/Tests.antt =====
-- internal/domain: runs on small inputs, and each theorem at an input that meets its hypotheses.
use go_judgy.Prelude.{
  ℕ, ◌≡◌, inl, inr, refl, true, false, none, some, List, [], ◌∷◌, get_elem?, All, arith,
}
use go_judgy.Prelude.Int.{pos, int64, ◌+ℤ◌}
use go_judgy.Prelude.Bytes.{Bytes, bytes, lookup}
use go_judgy.Errors.Types.{or_else}
use go_judgy.Floats.Whole.{whole}
use go_judgy.Domain.State.{nil_value, new_state_with_data, copy, get, set, delete, merge}
use go_judgy.Domain.StateLaws.{get_lem}
use go_judgy.Domain.Score.{Answer, Score, is_valid, total_tokens, aggregate_scores}
use go_judgy.Domain.Winner.{answer_map_from, determine_winner, find_best, consider_score, consider}
use go_judgy.Domain.WinnerLaws.{IsOrdered, is_above}
use go_judgy.Domain.Dimensions.{aggregate_dimensional_scores}
use go_judgy.Domain.DimensionLaws.{in_means, aggregate_dimensional_scores-mean}
use go_judgy.Domain.Winners.{determine_winner-best}

abbrev colours : List (Bytes × ℕ)
colours = (bytes "red", 1) ∷ (bytes "blue", 2) ∷ []

abbrev shades : List (Bytes × ℕ)
shades = (bytes "blue", 5) ∷ []

merge_prefers : get (merge colours shades) (bytes "blue") ≡ some 5
unfolding get merge copy
merge_prefers = refl

get_lem_example :
    (get (new_state_with_data colours) (bytes "red") ≡ get colours (bytes "red"))
    × (get (delete colours (bytes "blue")) (bytes "red") ≡ get colours (bytes "red"))
    × (get (merge colours shades) (bytes "red")
        ≡ or_else (get shades (bytes "red")) (get colours (bytes "red")))
    × (set colours (bytes "blue") none ≡ inl nil_value)
    × ((s' : List (Bytes × ℕ)) × (set colours (bytes "blue") (some 7) ≡ inr s')
        × (get s' (bytes "red") ≡ get colours (bytes "red")))
get_lem_example = get_lem colours shades (bytes "blue") (bytes "red") 7

abbrev score : Bytes → ℕ → Score whole
score answer value = record {
  id = bytes "s";
  answer_id = answer;
  value = value;
  has_reason_ref = true;
  inline_reasoning = [];
  dimensions = [];
  tokens_used = pos 10;
  cost_cents = pos 2;
  valid = true;
  error = [];
}

abbrev answers : List Answer
answers = record { id = bytes "a" } ∷ record { id = bytes "b" } ∷ []

abbrev scores : List (Score whole)
scores = score (bytes "b") 3 ∷ score (bytes "a") 3 ∷ score (bytes "b") 1 ∷ []

tokens_test : total_tokens scores ≡ pos 30
unfolding total_tokens int64 ◌+ℤ◌
tokens_test = refl

mean_test : aggregate_scores whole scores ≡ 2
unfolding aggregate_scores is_valid
mean_test = refl

-- The tie between the answers goes to the smaller identifier.
winner_a : determine_winner whole scores answers ≡ some (record { id = bytes "a" })
unfolding determine_winner answer_map_from find_best consider_score consider is_valid
winner_a = refl

whole-IsOrdered : IsOrdered whole
whole-IsOrdered = record {
  irreflexive = λ a. ground arith;
  transitive = λ a b c h k. ground (arith, h, k);
  congruent = λ a b c h. ground (arith, h);
}

determine_winner-best_example :
    (i : ℕ) × (s : Score whole) × (get_elem? scores i ≡ some s)
    × (is_valid s ≡ true)
    × (lookup s.answer_id (answer_map_from [] answers) ≡ some (record { id = bytes "a" }))
    × All (λ t. is_above whole (answer_map_from [] answers) s.value t ≡ false) scores
determine_winner-best_example =
    determine_winner-best whole scores answers (record { id = bytes "a" }) whole-IsOrdered winner_a

abbrev with_safety : ℕ → Score whole
with_safety value =
    let plain = score (bytes "a") 1 in
    record plain { dimensions = record { name = bytes "safety"; value = value } ∷ [] }

abbrev failed_score : Score whole
failed_score = let plain = with_safety 100 in record plain { valid = false }

-- The score that failed does not count.
aggregate_dimensional_scores-mean_example :
    in_means whole
      (bytes "safety")
      (aggregate_dimensional_scores whole (with_safety 4 ∷ failed_score ∷ with_safety 8 ∷ []))
    ≡ some 6
unfolding is_valid
aggregate_dimensional_scores-mean_example =
    aggregate_dimensional_scores-mean whole (bytes "safety")
      (with_safety 4 ∷ failed_score ∷ with_safety 8 ∷ [])
