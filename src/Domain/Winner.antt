-- ===== src/Domain/Winner.antt =====
-- internal/domain/aggregation.go: the winner among the answers.
use go_judgy.Prelude.{
  Bool, true, false, ◌&&◌, ◌||◌, Option, none, some, List, [], ◌∷◌, if◌then◌else◌, ltb, ◌==◌,
}
use go_judgy.Prelude.Bytes.{Bytes, lookup, insert}
use go_judgy.Floats.{Floats}
use go_judgy.Domain.Score.{Answer, Score, is_valid}

-- Go's `<` on strings.
abbrev pub lt_bytes : Bytes → Bytes → Bool
lt_bytes a [] = false
lt_bytes [] (y ∷ ys) = true
lt_bytes (x ∷ xs) (y ∷ ys) = ltb x y || (x == y && lt_bytes xs ys)

-- The map from identifiers to answers; a later answer replaces one with its identifier.
unfoldable pub answer_map_from : List (Bytes × Answer) → List Answer → List (Bytes × Answer)
answer_map_from m [] = m
answer_map_from m (a ∷ answers) = answer_map_from (insert a.id a m) answers

module _ (F : Floats) where
  open F use {Float, zero_float, lt_float, eq_float}

  pub record Best : Type 0 where
    pub highest_score : Float
    pub winner : Option Answer
    pub has_valid_score : Bool

  -- The tie of a score with the highest so far.
  abbrev pub break_tie : Answer → Best → Best
  break_tie answer best = elim best.winner [
    | none ↦ best
    | some w ↦ if lt_bytes answer.id w.id then record best { winner = some answer } else best
  ]

  -- The loop body for a valid score of a known answer.
  unfoldable pub consider : Score F → Answer → Best → Best
  consider s answer best =
      let seen = record best { has_valid_score = true } in
      if lt_float best.highest_score s.value
      then record { highest_score = s.value; winner = some answer; has_valid_score = true }
      else if eq_float s.value best.highest_score
      then break_tie answer seen
      else seen

  -- The body of the loop.
  unfoldable pub consider_score : List (Bytes × Answer) → Score F → Best → Best
  consider_score m s best =
      if is_valid s
      then elim (lookup s.answer_id m) [ none ↦ best | some answer ↦ consider s answer best ]
      else best

  unfoldable pub find_best : List (Bytes × Answer) → List (Score F) → Best → Best
  find_best m [] best = best
  find_best m (s ∷ scores) best = find_best m scores (consider_score m s best)

  abbrev pub no_best : Best
  no_best = record { highest_score = zero_float; winner = none; has_valid_score = false }

  abbrev pub winner_of : Best → Option Answer
  winner_of best = if best.has_valid_score then best.winner else none

  -- `DetermineWinner`, a nil answer being `none`. Without scores or answers the loop finds none.
  unfoldable pub determine_winner : List (Score F) → List Answer → Option Answer
  unfolding answer_map_from find_best
  determine_winner [] answers = none
  determine_winner (s ∷ scores) [] = none
  determine_winner (s ∷ scores) (a ∷ answers) =
      winner_of (find_best (answer_map_from [] (a ∷ answers)) (s ∷ scores) no_best)
