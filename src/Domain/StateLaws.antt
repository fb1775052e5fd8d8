-- ===== src/Domain/StateLaws.antt =====
-- internal/domain/state.go: the operations of the state as operations on functions from keys.
use go_judgy.Prelude.{
  ◌≡◌, ◌∙◌, refl, ap, false, Bool-cases, inl, inr, Option, Option-cases, none, some, List, [], ◌∷◌,
  arith, if◌then◌else◌,
}
use go_judgy.Prelude.Bytes.{
  Bytes, beq, beq→eq, beq_refl, lookup, insert, lookup-insert_self, lookup-insert_ne,
}
use go_judgy.Errors.Types.{or_else}
use go_judgy.Domain.State.{nil_value, copy, new_state_with_data, get, set, without, delete, merge}

beq-false : (a b : Bytes) → beq a b ≡ false → beq b a ≡ false
beq-false a b h = ground (arith, beq→eq b a, beq_refl a)

module _ {V : Type 0} where
  lookup-insert_lem :
      (j k : Bytes) (v : V) (s : List (Bytes × V))
      → lookup j (insert k v s) ≡ (if beq k j then some v else lookup j s)
  lookup-insert_lem j k v s = elim (Bool-cases (beq k j)) [
    | inl e ↦ rw (e, beq→eq k j e) (lookup-insert_self j v s)
    | inr e ↦ rw e (lookup-insert_ne j k v s e)
  ]

  lookup-copy :
      (j : Bytes) (dst src : List (Bytes × V))
      → lookup j (copy dst src) ≡ or_else (lookup j src) (lookup j dst)
  unfolding copy
  lookup-copy j dst [] = refl
  lookup-copy j dst ((k, v) ∷ src) =
      lookup-insert_lem j k v (copy dst src)
      ∙ elim (Bool-cases (beq k j)) [ inl e ↦ rw e refl | inr e ↦ rw e (lookup-copy j dst src) ]

  pub lookup-without :
      (j k : Bytes) (s : List (Bytes × V))
      → lookup j (without k s) ≡ (if beq k j then none else lookup j s)
  unfolding without
  lookup-without j k [] = ground arith
  lookup-without j k ((i, v) ∷ s) = elim (Bool-cases (beq i k)) [
    | inl e ↦ rw (e, beq→eq i k e, lookup-without j k s) (ground arith)
    | inr e ↦ elim (Bool-cases (beq i j)) [
      | inl same ↦ rw (e, same, beq-false j k (rw⁻¹ (beq→eq i j same) e)) refl
      | inr other ↦ rw (e, other) (lookup-without j k s)
    ]
  ]

  or_else-none : (o : Option V) → or_else o none ≡ o
  or_else-none none = refl
  or_else-none (some v) = refl

  without-missing :
      (j key : Bytes) (s : List (Bytes × V))
      → lookup key s ≡ none
      → lookup j s ≡ (if beq key j then none else lookup j s)
  without-missing j key s missing = elim (Bool-cases (beq key j)) [
    | inl e ↦ rw e (rw⁻¹ (beq→eq key j e) missing)
    | inr e ↦ rw e refl
  ]

  lookup-delete :
      (j key : Bytes) (s : List (Bytes × V))
      → lookup j (delete s key) ≡ (if beq key j then none else lookup j s)
  unfolding delete
  lookup-delete j key s = elim (Option-cases (lookup key s)) [
    | inl missing ↦
        rw (delete, missing)
          (lookup-copy j [] s ∙ or_else-none (lookup j s) ∙ without-missing j key s missing)
    | inr (v, e) ↦ rw (delete, e) (lookup-without j key s)
  ]

  -- The state refines a function from keys to values. Creating it from a list keeps what the list
  -- holds, a deletion removes its key alone, a merge prefers the values of the other state, and
  -- setting a value changes its key alone, where setting nil is an error.
  pub get_lem :
      (s t : List (Bytes × V)) (key j : Bytes) (v : V)
      → (get (new_state_with_data s) j ≡ get s j)
        × (get (delete s key) j ≡ (if beq key j then none else get s j))
        × (get (merge s t) j ≡ or_else (get t j) (get s j))
        × (set s key none ≡ inl nil_value)
        × ((s' : List (Bytes × V)) × (set s key (some v) ≡ inr s')
            × (get s' j ≡ (if beq key j then some v else get s j)))
  unfolding get new_state_with_data merge set
  get_lem s t key j v =
      let copied = lookup-copy j [] s ∙ or_else-none (lookup j s) in
      (
        copied,
        lookup-delete j key s,
        lookup-copy j (copy [] s) t ∙ ap (or_else (lookup j t)) copied,
        refl,
        (insert key v (copy [] s), refl, lookup-insert_lem j key v (copy [] s) ∙ rw copied refl),
      )
