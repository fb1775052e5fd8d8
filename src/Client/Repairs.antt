-- ===== src/Client/Repairs.antt =====
-- internal/llm/client_score.go: `applyTransportRepairs`. The pattern for commas, a comma, spaces, a
-- brace from the class `[}]`, and then `]`, is written as a function. Texts are ASCII.
use go_judgy.Prelude.{
  ℕ, Bool, true, false, ◌&&◌, ◌||◌, [], ◌∷◌, if◌then◌else◌, ◌==◌, ◌≡◌, refl, arith, inl, inr,
  Bool-cases,
}
use go_judgy.Prelude.Bytes.{Bytes, bytes, beq}
use go_judgy.Errors.Text.{has_prefix, contains}
use go_judgy.Transport.Words.{trim_space}

-- `strings.TrimPrefix` and `strings.TrimSuffix`, whose cut text is not empty.
abbrev drop_prefix : Bytes → Bytes → Bytes
drop_prefix s [] = s
drop_prefix [] (p ∷ ps) = []
drop_prefix (c ∷ cs) (p ∷ ps) = drop_prefix cs ps

unfoldable pub trim_prefix : Bytes → Bytes → Bytes
trim_prefix s p = if has_prefix s p then drop_prefix s p else s

unfoldable pub trim_suffix : Bytes → Bytes → Bytes
trim_suffix [] p = []
trim_suffix (c ∷ cs) p = let rest = trim_suffix cs p in if beq (c ∷ cs) p then [] else c ∷ rest

-- `\s`.
abbrev is_pattern_space : ℕ → Bool
is_pattern_space c = c == 32 || (c == 9 || (c == 10 || (c == 12 || c == 13)))

unfoldable skip_space : Bytes → Bytes
skip_space [] = []
skip_space (c ∷ cs) = if is_pattern_space c then skip_space cs else c ∷ cs

-- A match of the pattern starts at the comma c; what stands after it is cs.
abbrev starts_match : ℕ → Bytes → Bool
starts_match c cs = c == b',' && has_prefix (skip_space cs) (bytes "}]")

-- The replacement of every match by its group, from inside or outside the spaces of a match.
unfoldable replace_matches : Bool → Bytes → Bytes
unfolding skip_space
replace_matches inside [] = []
replace_matches inside (c ∷ cs) =
    let dropped = starts_match c cs || (inside && is_pattern_space c) in
    let rest = replace_matches dropped cs in if dropped then rest else c ∷ rest

abbrev pub fence : Bytes
fence = bytes "```"

unfoldable pub apply_transport_repairs : Bytes → Bytes
unfolding trim_prefix trim_suffix replace_matches trim_space
apply_transport_repairs content = trim_space (
    replace_matches false
      (trim_suffix (trim_prefix (trim_prefix content (bytes "```json")) fence) fence))

skip_space-contains : (s p : Bytes) → has_prefix (skip_space s) p ≡ true → contains s p ≡ true
unfolding skip_space contains
skip_space-contains [] p h = h
skip_space-contains (c ∷ cs) p h = elim (Bool-cases (is_pattern_space c)) [
  | inl e ↦ ground (arith, skip_space-contains cs p)
  | inr e ↦ ground arith
]

-- Commas are removed only before `}]`: in a text that does not contain `}]`, such as one object with a
-- comma before its closing brace, the pattern replaces nothing.
replace_matches-same : (s : Bytes) → contains s (bytes "}]") ≡ false → replace_matches false s ≡ s
unfolding replace_matches contains
replace_matches-same [] h = refl
replace_matches-same (c ∷ cs) h =
    ground (arith, skip_space-contains cs (bytes "}]"), replace_matches-same cs)
