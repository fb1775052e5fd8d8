-- ===== src/Domain/Winners.antt =====
-- internal/domain/aggregation.go: what `DetermineWinner` promises.
use go_judgy.Prelude.{
  ℕ, ◌≡◌, ap, refl, Option-cases, inl, inr, true, false, Bool-cases, none, some, List, [], ◌∷◌,
  get_elem?, All, arith,
}
use go_judgy.Prelude.Bytes.{Bytes, lookup}
use go_judgy.Floats.{Floats}
use go_judgy.Domain.Score.{Answer, Score, is_valid}
use go_judgy.Domain.Winner.{
  answer_map_from, Best, consider, consider_score, find_best, no_best, winner_of, determine_winner,
}
use go_judgy.Domain.WinnerLaws.{IsOrdered, is_above, Same, find_best-top, find_best-source}

module _ (F : Floats) where
  open F use {Float, zero_float, lt_float, eq_float}

  All-Same :
      (m : List (Bytes × Answer)) (v h : Float) (scores : List (Score F))
      → Same F v h
      → All (λ t. is_above F m h t ≡ false) scores
      → All (λ t. is_above F m v t ≡ false) scores
  All-Same m v h [] same below = below
  All-Same m v h (t ∷ scores) same (b, below) =
      (rw (same t.value) b, All-Same m v h scores same below)

  winner_of-some : (best : Best F) (a : Answer) → winner_of F best ≡ some a → best.winner ≡ some a
  winner_of-some best a won = ground (arith, won)

  -- With a transitive and irreflexive `<` that compares equal values alike, a winner is the answer
  -- that a valid score names, and no valid score of a known answer is above that score.
  pub determine_winner-best :
      (scores : List (Score F)) (answers : List Answer) (a : Answer)
      → IsOrdered F
      → determine_winner F scores answers ≡ some a
      → (i : ℕ) × (s : Score F) × (get_elem? scores i ≡ some s)
        × (is_valid s ≡ true)
        × (lookup s.answer_id (answer_map_from [] answers) ≡ some a)
        × All (λ t. is_above F (answer_map_from [] answers) s.value t ≡ false) scores
  unfolding determine_winner
  determine_winner-best [] answers a laws won = cc
  determine_winner-best (s ∷ scores) [] a laws won = cc
  determine_winner-best (s ∷ scores) (b ∷ answers) a laws won =
      let m = answer_map_from [] (b ∷ answers) in
      let best = find_best F m (s ∷ scores) (no_best F) in
      elim (find_best-source F m (s ∷ scores) (no_best F) a laws (winner_of-some best a won)) [
        | inl (never, h) ↦ cc
        | inr (i, t, at, valid, known, same) ↦ (
          i,
          t,
          at,
          valid,
          known,
          All-Same m t.value best.highest_score (s ∷ scores) same
              (find_best-top F m (s ∷ scores) (no_best F) laws),
        )
      ]

  -- A score that is not above the highest score leaves a loop without a winner as it is.
  consider_score-none :
      (m : List (Bytes × Answer)) (s : Score F) (best : Best F)
      → best.winner ≡ none
      → is_above F m best.highest_score s ≡ false
      → ((consider_score F m s best).winner ≡ none)
        × ((consider_score F m s best).highest_score ≡ best.highest_score)
  unfolding consider_score consider
  consider_score-none m s best missing low = elim (Bool-cases (is_valid s)) [
    | inr invalid ↦ rw invalid (missing, refl)
    | inl valid ↦ elim (Option-cases (lookup s.answer_id m)) [
      | inl unknown ↦ rw (valid, unknown) (missing, refl)
      | inr (a, known) ↦
          let lower : lt_float best.highest_score s.value ≡ false = rw (valid, known) at low in
          elim (Bool-cases (eq_float s.value best.highest_score)) [
            | inl tie ↦ rw (valid, known, lower, tie, missing) (refl, refl)
            | inr other ↦ rw (valid, known, lower, other) (missing, refl)
          ]
    ]
  ]

  find_best-none :
      (m : List (Bytes × Answer)) (scores : List (Score F)) (best : Best F)
      → best.winner ≡ none
      → All (λ t. is_above F m best.highest_score t ≡ false) scores
      → (find_best F m scores best).winner ≡ none
  unfolding find_best
  find_best-none m [] best missing low = missing
  find_best-none m (s ∷ scores) best missing (first, low) =
      let next = consider_score-none m s best missing first in
      find_best-none m scores (consider_score F m s best) next.0 (
        All-Same m (consider_score F m s best).highest_score best.highest_score scores
          (λ c. ap (λ h. lt_float h c) next.1) low)

  winner_of-none : (best : Best F) → best.winner ≡ none → winner_of F best ≡ none
  winner_of-none best missing = ground (arith, missing)

  -- When no valid score of a known answer is above zero there is no winner, also if there are valid
  -- scores.
  pub determine_winner-zero :
      (scores : List (Score F)) (answers : List Answer)
      → All (λ t. is_above F (answer_map_from [] answers) zero_float t ≡ false) scores
      → determine_winner F scores answers ≡ none
  unfolding determine_winner
  determine_winner-zero [] answers low = refl
  determine_winner-zero (s ∷ scores) [] low = refl
  determine_winner-zero (s ∷ scores) (b ∷ answers) low =
      winner_of-none (find_best F (answer_map_from [] (b ∷ answers)) (s ∷ scores) (no_best F))
        (find_best-none (answer_map_from [] (b ∷ answers)) (s ∷ scores) (no_best F) refl low)
