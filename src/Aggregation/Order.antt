-- ===== src/Aggregation/Order.antt =====
-- internal/aggregation/activities.go: the winner does not depend on the order in which Go visits a
-- map.
use go_judgy.Prelude.{
  ◌≡◌, ◌∙◌, refl, subst, ap, inl, inr, true, false, Bool-cases, List, [], ◌∷◌, map, All, arith,
}
use mathlib.Core.List.{Permᴰ}
use mathlib.Core.List.Permᴰ
use go_judgy.Prelude.Bytes.{Bytes}
use go_judgy.Floats.{Floats}
use go_judgy.Domain.Score.{Answer, Score}
use go_judgy.Domain.Winner.{lt_bytes, answer_map_from}
use go_judgy.Domain.WinnerLaws.{IsOrdered}
use go_judgy.Aggregation.Sorting.{sort, IsLinear, sort-perm}
use go_judgy.Aggregation.Policy.{
  AggregationPolicy, highest_from, top_answers, winner_and_ties, choose_winner, aggregate_group,
  group_scores, determine_winner_with_policy_aggregation,
}

asymmetric-lt_bytes : (a b : Bytes) → lt_bytes a b ≡ true → lt_bytes b a ≡ false
asymmetric-lt_bytes a [] h = cc
asymmetric-lt_bytes [] (y ∷ ys) h = refl
asymmetric-lt_bytes (x ∷ xs) (y ∷ ys) h = ground (arith, h, asymmetric-lt_bytes xs ys)

transitive-lt_bytes :
    (a b c : Bytes) → lt_bytes a b ≡ true → lt_bytes b c ≡ true → lt_bytes a c ≡ true
transitive-lt_bytes a [] c h k = cc
transitive-lt_bytes a (y ∷ ys) [] h k = cc
transitive-lt_bytes [] (y ∷ ys) (z ∷ zs) h k = refl
transitive-lt_bytes (x ∷ xs) (y ∷ ys) (z ∷ zs) h k =
    ground (arith, h, k, transitive-lt_bytes xs ys zs)

connected-lt_bytes : (a b : Bytes) → lt_bytes a b ≡ false → lt_bytes b a ≡ false → a ≡ b
connected-lt_bytes [] [] h k = refl
connected-lt_bytes [] (y ∷ ys) h k = cc
connected-lt_bytes (x ∷ xs) [] h k = cc
connected-lt_bytes (x ∷ xs) (y ∷ ys) h k = ground (arith, h, k, connected-lt_bytes xs ys)

pub lt_bytes-IsLinear : IsLinear lt_bytes
lt_bytes-IsLinear = record {
  asymmetric = asymmetric-lt_bytes;
  transitive = transitive-lt_bytes;
  connected = connected-lt_bytes;
}

All-perm : {A : Type 0} (P : A → Type 0) (xs ys : List A) → Permᴰ xs ys → All P xs → All P ys
All-perm P _ _ Permᴰ.nil h = h
All-perm P _ _ (Permᴰ.cons {l₁ = xs} {l₂ = ys} e p) (h, hs) = (subst P e h, All-perm P xs ys p hs)
All-perm P _ _ (Permᴰ.swap e e') (h, (k, hs)) = (subst P e' k, (subst P e h, hs))
All-perm P xs zs (Permᴰ.trans {l₂ = ys} p q) h = All-perm P ys zs q (All-perm P xs ys p h)

module _ (F : Floats) where
  open F use {Float, lt_float, eq_float, close}

  -- No value is above h.
  abbrev IsBound : Float → List (Bytes × Float) → Type 0
  IsBound h l = All (λ p. lt_float h p.1 ≡ false) l

  not_above_after :
      (laws : IsOrdered F) (h v x : Float)
      → lt_float h v ≡ true
      → lt_float h x ≡ false
      → lt_float v x ≡ false
  not_above_after laws h v x up below = ground (arith, up, below, laws.transitive h v x)

  highest_from-keeps :
      (h x : Float) (l : List (Bytes × Float))
      → IsOrdered F
      → lt_float h x ≡ false
      → lt_float (highest_from F h l) x ≡ false
  unfolding highest_from
  highest_from-keeps h x [] laws below = below
  highest_from-keeps h x ((id, v) ∷ l) laws below = elim (Bool-cases (lt_float h v)) [
    | inl up ↦ rw up (highest_from-keeps v x l laws (not_above_after laws h v x up below))
    | inr no_more ↦ rw no_more (highest_from-keeps h x l laws below)
  ]

  highest_from-IsBound :
      (h : Float) (l : List (Bytes × Float)) → IsOrdered F → IsBound (highest_from F h l) l
  unfolding highest_from
  highest_from-IsBound h [] laws = tt
  highest_from-IsBound h ((id, v) ∷ l) laws = elim (Bool-cases (lt_float h v)) [
    | inl up ↦
        let same : highest_from F v l ≡ highest_from F h ((id, v) ∷ l) = rw up refl in
        subst (λ z. IsBound z ((id, v) ∷ l)) same
          (highest_from-keeps v v l laws (laws.irreflexive v), highest_from-IsBound v l laws)
    | inr no_more ↦
        let same : highest_from F h l ≡ highest_from F h ((id, v) ∷ l) = rw no_more refl in
        subst (λ z. IsBound z ((id, v) ∷ l)) same
          (highest_from-keeps h v l laws no_more, highest_from-IsBound h l laws)
  ]

  -- The highest is not above any bound.
  highest_from-least :
      (b h : Float) (l : List (Bytes × Float))
      → lt_float b h ≡ false
      → IsBound b l
      → lt_float b (highest_from F h l) ≡ false
  unfolding highest_from
  highest_from-least b h [] below bound = below
  highest_from-least b h ((id, v) ∷ l) below (first, bound) = elim (Bool-cases (lt_float h v)) [
    | inl up ↦ rw up (highest_from-least b v l first bound)
    | inr no_more ↦ rw no_more (highest_from-least b h l below bound)
  ]

  -- A value that is equal to itself: of the `float64` values all but NaN.
  abbrev pub IsNumber : Float → Type 0
  IsNumber x = eq_float x x ≡ true

  -- `close` does not tell numbers apart of which none is above the other.
  abbrev pub IsTolerant : Type 0
  IsTolerant =
      (x a b : Float)
      → IsNumber a
      → IsNumber b
      → lt_float a b ≡ false
      → lt_float b a ≡ false
      → close x a ≡ close x b

  abbrev pub AreNumbers : List (Bytes × Float) → Type 0
  AreNumbers l = All (λ p. IsNumber p.1) l

  highest_from-IsNumber :
      (h : Float) (l : List (Bytes × Float))
      → IsNumber h
      → AreNumbers l
      → IsNumber (highest_from F h l)
  unfolding highest_from
  highest_from-IsNumber h [] first rest = first
  highest_from-IsNumber h ((id, v) ∷ l) first (next, rest) = elim (Bool-cases (lt_float h v)) [
    | inl up ↦ rw up (highest_from-IsNumber v l next rest)
    | inr no_more ↦ rw no_more (highest_from-IsNumber h l first rest)
  ]

  highest_from-perm :
      (i j : Bytes) (v w : Float) (xs ys : List (Bytes × Float))
      → IsOrdered F
      → Permᴰ ((i, v) ∷ xs) ((j, w) ∷ ys)
      → lt_float (highest_from F v xs) (highest_from F w ys) ≡ false
  highest_from-perm i j v w xs ys laws p =
      let h = highest_from F v xs in
      let all : IsBound h ((i, v) ∷ xs) =
        (highest_from-keeps v v xs laws (laws.irreflexive v), highest_from-IsBound v xs laws) in
      let moved = All-perm (λ (q : Bytes × Float). lt_float h q.1 ≡ false) _ _ p all in
      highest_from-least h w ys moved.0 moved.1

  top_answers-perm :
      (h : Float) (xs ys : List (Bytes × Float))
      → Permᴰ xs ys
      → Permᴰ (top_answers F h xs) (top_answers F h ys)
  unfolding top_answers
  top_answers-perm h _ _ Permᴰ.nil = Permᴰ.nil
  top_answers-perm h _ _ (Permᴰ.cons {a = a} {l₁ = xs} {l₂ = ys} e p) =
      rw⁻¹ e (elim (Bool-cases (close a.1 h)) [
        | inl yes_close ↦ rw yes_close (Permᴰ.cons refl (top_answers-perm h xs ys p))
        | inr far ↦ rw far (top_answers-perm h xs ys p)
      ])
  top_answers-perm h _ _ (Permᴰ.swap {a = a} {b = b} {l = l} e e') =
      rw⁻¹ (e, e')
        (elim (Bool-cases (close a.1 h)) [
          | inl a_close ↦ elim (Bool-cases (close b.1 h)) [
            | inl b_close ↦ rw (a_close, b_close) (Permᴰ.swap refl refl)
            | inr b_far ↦ rw (a_close, b_far) (Permᴰ.cons refl (Permᴰ.refl (top_answers F h l)))
          ]
          | inr a_far ↦ elim (Bool-cases (close b.1 h)) [
            | inl b_close ↦ rw (a_far, b_close) (Permᴰ.cons refl (Permᴰ.refl (top_answers F h l)))
            | inr b_far ↦ rw (a_far, b_far) (Permᴰ.refl (top_answers F h l))
          ]
        ])
  top_answers-perm h xs zs (Permᴰ.trans {l₂ = ys} p q) =
      Permᴰ.trans (top_answers-perm h xs ys p) (top_answers-perm h ys zs q)

  top_answers-same :
      (h k : Float) (l : List (Bytes × Float))
      → ((x : Float) → close x h ≡ close x k)
      → top_answers F h l ≡ top_answers F k l
  unfolding top_answers
  top_answers-same h k [] same = refl
  top_answers-same h k ((id, v) ∷ l) same = rw (same v, top_answers-same h k l same) refl

  choose_winner-perm :
      (first again l : List (Bytes × Float))
      → IsOrdered F
      → IsTolerant
      → AreNumbers l
      → Permᴰ first l
      → Permᴰ again l
      → choose_winner F first again ≡ choose_winner F l l
  unfolding choose_winner
  choose_winner-perm [] again [] laws tolerant numbers p q = refl
  choose_winner-perm [] again (y ∷ l) laws tolerant numbers p q = let same = Permᴰ.length-eq p in cc
  choose_winner-perm (x ∷ first) again [] laws tolerant numbers p q =
      let same = Permᴰ.length-eq p in cc
  choose_winner-perm ((i, v) ∷ first) again ((j, w) ∷ l) laws tolerant numbers p q =
      let h = highest_from F v first in
      let k = highest_from F w l in
      let moved = All-perm (λ (r : Bytes × Float). IsNumber r.1) _ _ (Permᴰ.symm p) numbers in
      let agree : (x : Float) → close x h ≡ close x k = λ x.
        tolerant x h k (highest_from-IsNumber v first moved.0 moved.1)
          (highest_from-IsNumber w l numbers.0 numbers.1) (highest_from-perm i j v w first l laws p)
          (highest_from-perm j i w v l first laws (Permᴰ.symm p)) in
      ap (winner_and_ties F) (
        sort-perm lt_bytes (top_answers F h again) (top_answers F h ((j, w) ∷ l)) lt_bytes-IsLinear
          (top_answers-perm h again ((j, w) ∷ l) q)
        ∙ ap (sort lt_bytes) (top_answers-same h k ((j, w) ∷ l) agree))

  -- The aggregates of the answers, in the order of the scores.
  abbrev pub aggregates : List (Score F) → List Answer → AggregationPolicy F → List (Bytes × Float)
  aggregates scores answers policy =
      map (aggregate_group F policy) (group_scores F (answer_map_from [] answers) scores [])

  -- The winner and the answers tied with it do not depend on the orders in which Go visits the map
  -- of aggregates, if no aggregate is NaN, the visits are permutations, `<` is transitive and
  -- irreflexive and compares equal values alike, and the tolerance does not tell numbers apart of
  -- which none is above the other.
  pub determine_winner-order :
      (order order_again : List (Bytes × Float) → List (Bytes × Float)) (scores : List (Score F))
      (answers : List Answer) (policy : AggregationPolicy F)
      → ((l : List (Bytes × Float)) → Permᴰ (order l) l)
      → ((l : List (Bytes × Float)) → Permᴰ (order_again l) l)
      → IsOrdered F
      → IsTolerant
      → AreNumbers (aggregates scores answers policy)
      → determine_winner_with_policy_aggregation F order order_again scores answers policy
        ≡ determine_winner_with_policy_aggregation F (λ l. l) (λ l. l) scores answers policy
  unfolding determine_winner_with_policy_aggregation
  determine_winner-order order order_again scores answers policy visits visits_again laws tolerant
        numbers =
      let aggregated = aggregates scores answers policy in
      choose_winner-perm (order aggregated) (order_again aggregated) aggregated laws tolerant
        numbers (visits aggregated) (visits_again aggregated)
