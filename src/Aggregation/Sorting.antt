-- ===== src/Aggregation/Sorting.antt =====
-- Sorting as `sort.Float64s` and `sort.Strings` do it: the result of any sorting by a strict order.
use go_judgy.Prelude.{
  ◌≡◌, ◌∙◌, refl, ap, inl, inr, Bool, true, false, Bool-cases, List, [], ◌∷◌, if◌then◌else◌,
}
use go_judgy.Prelude.{arith}
use mathlib.Core.List.{Permᴰ}

module _ {ℓ} {A : Type ℓ} where
  unfoldable pub insert_sorted : (A → A → Bool) → A → List A → List A
  insert_sorted lt x [] = x ∷ []
  insert_sorted lt x (y ∷ ys) =
      let rest = insert_sorted lt x ys in if lt y x then y ∷ rest else x ∷ y ∷ ys

  unfoldable pub sort : (A → A → Bool) → List A → List A
  unfolding insert_sorted
  sort lt [] = []
  sort lt (x ∷ xs) = insert_sorted lt x (sort lt xs)

  -- A strict linear order as a test.
  pub record IsLinear (lt : A → A → Bool) : Type ℓ where
    pub asymmetric : (a b : A) → lt a b ≡ true → lt b a ≡ false
    pub transitive : (a b c : A) → lt a b ≡ true → lt b c ≡ true → lt a c ≡ true
    pub connected : (a b : A) → lt a b ≡ false → lt b a ≡ false → a ≡ b

  lt_of_not_lt :
      (lt : A → A → Bool) (a b c : A) → IsLinear lt → lt c b ≡ false → lt c a ≡ true → lt b a ≡ true
  lt_of_not_lt lt a b c laws cb ca = elim (Bool-cases (lt b c)) [
    | inl bc ↦ laws.transitive b c a bc ca
    | inr bc ↦ ap (λ x. lt x a) (laws.connected b c bc cb) ∙ ca
  ]

  insert_sorted-swap :
      (lt : A → A → Bool) (a b : A) (l : List A)
      → IsLinear lt
      → insert_sorted lt a (insert_sorted lt b l) ≡ insert_sorted lt b (insert_sorted lt a l)
  unfolding insert_sorted
  insert_sorted-swap lt a b [] laws = ground (arith, laws.connected a b, laws.asymmetric a b)
  insert_sorted-swap lt a b (c ∷ l) laws = elim (Bool-cases (lt c a)) [
    | inl ca ↦ elim (Bool-cases (lt c b)) [
      | inl cb ↦ rw (cb, ca, cb) (ap (λ r. c ∷ r) (insert_sorted-swap lt a b l laws))
      | inr cb ↦ rw (cb, ca, cb, lt_of_not_lt lt a b c laws cb ca) refl
    ]
    | inr ca ↦ elim (Bool-cases (lt c b)) [
      | inl cb ↦ rw (ca, cb, ca, lt_of_not_lt lt b a c laws ca cb) refl
      | inr cb ↦ rw (ca, cb) (ground (arith, laws.connected a b, laws.asymmetric a b))
    ]
  ]

  pub sort-perm :
      (lt : A → A → Bool) (xs ys : List A) → IsLinear lt → Permᴰ xs ys → sort lt xs ≡ sort lt ys
  unfolding sort
  sort-perm lt _ _ laws Permᴰ.nil = refl
  sort-perm lt _ _ laws (Permᴰ.cons {l₁ = xs} {l₂ = ys} e p) =
      rw (e, sort-perm lt xs ys laws p) refl
  sort-perm lt _ _ laws (Permᴰ.swap {l = l} e e') =
      rw (e, e') (insert_sorted-swap lt _ _ (sort lt l) laws)
  sort-perm lt xs zs laws (Permᴰ.trans {l₂ = ys} p q) =
      sort-perm lt xs ys laws p ∙ sort-perm lt ys zs laws q
