-- ===== src/Domain/WinnerLaws.antt =====
-- internal/domain/aggregation.go: which answer `DetermineWinner` chooses.
use go_judgy.Prelude.{
  is_some, ℕ, suc, ◌≡◌, ◌∙◌, refl, sym, ap, ◌⊎◌, inl, inr, Bool, true, false, Bool-cases, ◌&&◌,
  Option-cases, some, List, [], ◌∷◌, get_elem?, All, arith,
}
use go_judgy.Prelude.Bytes.{Bytes, lookup}
use go_judgy.Floats.{Floats}
use go_judgy.Domain.Score.{Answer, Score, is_valid}
use go_judgy.Domain.Winner.{Best, break_tie, consider, consider_score, find_best, lt_bytes}

abbrev pub is_known : List (Bytes × Answer) → Bytes → Bool
is_known m id = is_some (lookup id m)

module _ (F : Floats) where
  open F use {Float, zero_float, lt_float, eq_float}

  -- What IEEE 754 says of `<` and `==`: `<` is transitive and irreflexive, and equal values compare alike.
  pub record IsOrdered : Type 0 where
    pub irreflexive : (a : Float) → lt_float a a ≡ false
    pub transitive :
        (a b c : Float) → lt_float a b ≡ true → lt_float b c ≡ true → lt_float a c ≡ true
    pub congruent : (a b c : Float) → eq_float a b ≡ true → lt_float a c ≡ lt_float b c

  -- A valid score of a known answer above a value.
  abbrev pub is_above : List (Bytes × Answer) → Float → Score F → Bool
  is_above m v s = is_valid s && (is_known m s.answer_id && lt_float v s.value)

  -- Two values with the same values above them.
  abbrev pub Same : Float → Float → Type 0
  Same a b = (c : Float) → lt_float a c ≡ lt_float b c

  break_tie-cases :
      (a : Answer) (best : Best F)
      → ((break_tie F a best).highest_score ≡ best.highest_score)
        × (((break_tie F a best).winner ≡ best.winner) ⊎ ((break_tie F a best).winner ≡ some a))
  break_tie-cases a best = elim (Option-cases best.winner) [
    | inl e ↦ rw e (refl, inl refl)
    | inr (w, e) ↦ elim (Bool-cases (lt_bytes a.id w.id)) [
      | inl less ↦ rw (e, less) (refl, inr refl)
      | inr more ↦ rw (e, more) (refl, inl refl)
    ]
  ]

  consider-cases :
      (a : Answer) (s : Score F) (best : Best F)
      → IsOrdered
      → (((consider F s a best).winner ≡ best.winner)
          × ((consider F s a best).highest_score ≡ best.highest_score))
        ⊎ (((consider F s a best).winner ≡ some a)
            × Same s.value (consider F s a best).highest_score)
  unfolding consider
  consider-cases a s best laws = elim (Bool-cases (lt_float best.highest_score s.value)) [
    | inl higher ↦ rw higher (inr (refl, λ c. refl))
    | inr lower ↦ elim (Bool-cases (eq_float s.value best.highest_score)) [
      | inr other ↦ rw (lower, other) (inl (refl, refl))
      | inl tie ↦
          let broken = break_tie-cases a (record best { has_valid_score = true }) in
          rw (lower, tie)
            (elim broken.1 [
              | inl kept ↦ inl (kept, broken.0)
              | inr taken ↦ inr (
                taken,
                λ c.
                    laws.congruent s.value best.highest_score c tie
                    ∙ ap (λ h. lt_float h c) (sym broken.0),
              )
            ])
    ]
  ]

  -- How the loop body changes the best score: not at all, or to this score.
  consider_score-cases :
      (m : List (Bytes × Answer)) (s : Score F) (best : Best F)
      → IsOrdered
      → (((consider_score F m s best).winner ≡ best.winner)
          × ((consider_score F m s best).highest_score ≡ best.highest_score))
        ⊎ ((a : Answer) × (is_valid s ≡ true)
            × (lookup s.answer_id m ≡ some a)
            × ((consider_score F m s best).winner ≡ some a)
            × Same s.value (consider_score F m s best).highest_score)
  unfolding consider_score
  consider_score-cases m s best laws = elim (Bool-cases (is_valid s)) [
    | inr invalid ↦ inl (rw invalid (refl, refl))
    | inl valid ↦ elim (Option-cases (lookup s.answer_id m)) [
      | inl unknown ↦ inl (rw (valid, unknown) (refl, refl))
      | inr (a, known) ↦ elim (consider-cases a s best laws) [
        | inl same ↦ inl (rw (valid, known) same)
        | inr (w, h) ↦ inr (a, valid, known, rw (valid, known) w, rw (valid, known) h)
      ]
    ]
  ]

  -- The highest score before and after the loop body.
  consider-highest :
      (a : Answer) (s : Score F) (best : Best F)
      → (((consider F s a best).highest_score ≡ best.highest_score)
          × (lt_float best.highest_score s.value ≡ false))
        ⊎ (((consider F s a best).highest_score ≡ s.value)
            × (lt_float best.highest_score s.value ≡ true))
  unfolding consider
  consider-highest a s best = elim (Bool-cases (lt_float best.highest_score s.value)) [
    | inl higher ↦ inr (rw higher refl, higher)
    | inr lower ↦ elim (Bool-cases (eq_float s.value best.highest_score)) [
      | inr other ↦ inl (rw (lower, other) refl, lower)
      | inl tie ↦
          inl
            (rw (lower, tie) (break_tie-cases a (record best { has_valid_score = true })).0, lower)
    ]
  ]

  consider_score-highest :
      (m : List (Bytes × Answer)) (s : Score F) (best : Best F)
      → (((consider_score F m s best).highest_score ≡ best.highest_score)
          × (is_above m best.highest_score s ≡ false))
        ⊎ (((consider_score F m s best).highest_score ≡ s.value)
            × (lt_float best.highest_score s.value ≡ true))
  unfolding consider_score
  consider_score-highest m s best = elim (Bool-cases (is_valid s)) [
    | inr invalid ↦ inl (rw invalid refl, rw invalid refl)
    | inl valid ↦ elim (Option-cases (lookup s.answer_id m)) [
      | inl unknown ↦ inl (rw (valid, unknown) refl, rw (valid, unknown) refl)
      | inr (a, known) ↦ elim (consider-highest a s best) [
        | inl (same, lower) ↦ inl (rw (valid, known) same, rw (valid, known, lower) refl)
        | inr (raised, higher) ↦ inr (rw (valid, known) raised, higher)
      ]
    ]
  ]

  consider_score-top :
      (m : List (Bytes × Answer)) (s : Score F) (best : Best F)
      → IsOrdered
      → is_above m (consider_score F m s best).highest_score s ≡ false
  consider_score-top m s best laws = elim (consider_score-highest m s best) [
    | inl (same, lower) ↦ rw same lower
    | inr (raised, higher) ↦ rw (raised, laws.irreflexive s.value) (ground arith)
  ]

  consider_score-keeps :
      (m : List (Bytes × Answer)) (s t : Score F) (best : Best F)
      → IsOrdered
      → is_above m best.highest_score t ≡ false
      → is_above m (consider_score F m s best).highest_score t ≡ false
  consider_score-keeps m s t best laws below = elim (consider_score-highest m s best) [
    | inl (same, lower) ↦ rw same below
    | inr (raised, higher) ↦ elim (Bool-cases (lt_float s.value t.value)) [
      | inl above ↦
          let still = laws.transitive best.highest_score s.value t.value higher above in
          rw (raised, above) (rw still at below)
      | inr not_above ↦ rw (raised, not_above) (ground arith)
    ]
  ]

  find_best-keeps :
      (m : List (Bytes × Answer)) (scores : List (Score F)) (t : Score F) (best : Best F)
      → IsOrdered
      → is_above m best.highest_score t ≡ false
      → is_above m (find_best F m scores best).highest_score t ≡ false
  unfolding find_best
  find_best-keeps m [] t best laws below = below
  find_best-keeps m (s ∷ scores) t best laws below =
      find_best-keeps m scores t (consider_score F m s best) laws
        (consider_score-keeps m s t best laws below)

  -- No valid score of a known answer is above the highest score that the loop finds.
  pub find_best-top :
      (m : List (Bytes × Answer)) (scores : List (Score F)) (best : Best F)
      → IsOrdered
      → All (λ t. is_above m (find_best F m scores best).highest_score t ≡ false) scores
  unfolding find_best
  find_best-top m [] best laws = tt
  find_best-top m (s ∷ scores) best laws = (
    find_best-keeps m scores s (consider_score F m s best) laws (consider_score-top m s best laws),
    find_best-top m scores (consider_score F m s best) laws,
  )

  -- The winner of the loop is the winner before it, or the answer of one of the scores, with a value
  -- that compares like the highest score.
  pub find_best-source :
      (m : List (Bytes × Answer)) (scores : List (Score F)) (best : Best F) (a : Answer)
      → IsOrdered
      → (find_best F m scores best).winner ≡ some a
      → ((best.winner ≡ some a) × ((find_best F m scores best).highest_score ≡ best.highest_score))
        ⊎ ((i : ℕ) × (s : Score F) × (get_elem? scores i ≡ some s)
            × (is_valid s ≡ true)
            × (lookup s.answer_id m ≡ some a)
            × Same s.value (find_best F m scores best).highest_score)
  unfolding find_best
  find_best-source m [] best a laws won = inl (won, refl)
  find_best-source m (s ∷ scores) best a laws won =
      elim (find_best-source m scores (consider_score F m s best) a laws won) [
        | inr (i, t, at, valid, known, same) ↦ inr (suc i, t, at, valid, known, same)
        | inl (w, h) ↦ elim (consider_score-cases m s best laws) [
          | inl (w', h') ↦ inl (sym w' ∙ w, h ∙ h')
          | inr (b, valid, known, w', same) ↦
              inr (
                0,
                s,
                refl,
                valid,
                known ∙ sym w' ∙ w,
                λ c. same c ∙ ap (λ v. lt_float v c) (sym h),
              )
        ]
      ]
