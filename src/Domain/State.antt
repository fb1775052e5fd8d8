-- ===== src/Domain/State.antt =====
-- internal/domain/state.go: the immutable state of a workflow. A Go map is an association list in
-- which a key stands once. Reading an `atomic.Value` and storing into a new one leaves no trace.
use go_judgy.Prelude.{
  ℕ, Bool, ◌==◌, ◌⊎◌, inl, inr, Option, none, some, List, [], ◌∷◌, map, length, if◌then◌else◌,
}
use go_judgy.Prelude.Bytes.{Bytes, beq, lookup, insert}

pub data StateError : Type 0 where
  key_not_found nil_value : StateError

module _ {V : Type 0} where
  -- The value of `NewState`, and of `NewStateWithData` for a map with these pairs.
  unfoldable pub new_state : List (Bytes × V)
  new_state = []

  -- `maps.Copy(dst, src)`.
  unfoldable pub copy : List (Bytes × V) → List (Bytes × V) → List (Bytes × V)
  copy dst [] = dst
  copy dst ((k, v) ∷ src) = insert k v (copy dst src)

  unfoldable pub new_state_with_data : List (Bytes × V) → List (Bytes × V)
  unfolding copy
  new_state_with_data entries = copy [] entries

  -- `Get`: `none` is the answer `nil, false`.
  unfoldable pub get : List (Bytes × V) → Bytes → Option V
  get s k = lookup k s

  -- `Set`; the value `none` is nil.
  unfoldable pub set : List (Bytes × V) → Bytes → Option V → StateError ⊎ List (Bytes × V)
  unfolding copy
  set s k none = inl nil_value
  set s k (some v) = inr (insert k v (copy [] s))

  -- The loop of `Delete`.
  unfoldable pub without : Bytes → List (Bytes × V) → List (Bytes × V)
  without key [] = []
  without key ((k, v) ∷ s) = if beq k key then without key s else (k, v) ∷ without key s

  unfoldable pub delete : List (Bytes × V) → Bytes → List (Bytes × V)
  unfolding copy without
  delete s key = elim (lookup key s) [ none ↦ copy [] s | some v ↦ without key s ]

  unfoldable pub merge : List (Bytes × V) → List (Bytes × V) → List (Bytes × V)
  unfolding copy
  merge s other = copy (copy [] s) other

  unfoldable pub keys : List (Bytes × V) → List Bytes
  keys s = map (λ kv. kv.0) s

  unfoldable pub state_len : List (Bytes × V) → ℕ
  state_len s = length s

  unfoldable pub is_empty : List (Bytes × V) → Bool
  is_empty s = length s == 0

  unfoldable pub to_map : List (Bytes × V) → List (Bytes × V)
  unfolding copy
  to_map s = copy [] s
