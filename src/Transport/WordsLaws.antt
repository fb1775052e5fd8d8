-- ===== src/Transport/WordsLaws.antt =====
-- internal/llm/transport/idempotency.go: what the normalization of a text keeps.
use go_judgy.Prelude.{
  ℕ, ◌≡◌, ◌∙◌, refl, sym, ap, Bool, true, false, not, ◌&&◌, Bool-cases, inl, inr, List, [], ◌∷◌,
  ◌++◌, ◌==◌, All, arith,
}
use go_judgy.Prelude.Bytes.{Bytes, is_empty_text}
use go_judgy.Transport.Words.{
  is_space, trim_left, trim_right, trim_space, replace_crlf, flush, fields_from, fields, join,
  collapse_spaces, normalize_text,
}

empty_text : (s : Bytes) → is_empty_text s ≡ true → s ≡ []
empty_text [] h = refl
empty_text (c ∷ cs) h = cc

fields-trim_left : (s : Bytes) → fields_from [] (trim_left s) ≡ fields_from [] s
unfolding trim_left fields_from
fields-trim_left [] = refl
fields-trim_left (c ∷ cs) = elim (Bool-cases (is_space c)) [
  | inl space ↦ rw space (fields-trim_left cs)
  | inr other ↦ rw other (rw other refl)
]

fields-trim_right : (w s : Bytes) → fields_from w (trim_right s) ≡ fields_from w s
unfolding trim_right fields_from
fields-trim_right w [] = refl
fields-trim_right w (c ∷ cs) = elim (Bool-cases (is_space c)) [
  | inl space ↦ elim (Bool-cases (is_empty_text (trim_right cs))) [
    | inl empty ↦
        rw (space, empty)
          (ap (flush w) (
            sym (ap (fields_from []) (empty_text (trim_right cs) empty)) ∙ fields-trim_right [] cs))
    | inr full ↦ rw (space, full) (rw space (ap (flush w) (fields-trim_right [] cs)))
  ]
  | inr other ↦ rw other (rw other (fields-trim_right (w ++ (c ∷ [])) cs))
]

cr-is_space : is_space 13 ≡ true
unfolding is_space
cr-is_space = refl

lf-is_space : is_space 10 ≡ true
unfolding is_space
lf-is_space = refl

fields-replace_crlf : (w s : Bytes) → fields_from w (replace_crlf s) ≡ fields_from w s
unfolding replace_crlf fields_from
fields-replace_crlf w [] = refl
fields-replace_crlf w (c ∷ []) = refl
fields-replace_crlf w (c ∷ d ∷ cs) = elim (Bool-cases (c == 13 && d == 10)) [
  | inl pair ↦
      let is_cr : c ≡ 13 = ground (arith, pair) in
      let is_lf : d ≡ 10 = ground (arith, pair) in
      rw (is_cr, is_lf, lf-is_space, cr-is_space) (ap (flush w) (fields-replace_crlf [] cs))
  | inr other ↦ rw other (elim (Bool-cases (is_space c)) [
    | inl space ↦ rw space (ap (flush w) (fields-replace_crlf [] (d ∷ cs)))
    | inr letter ↦ rw letter (fields-replace_crlf (w ++ (c ∷ [])) (d ∷ cs))
  ])
]

pub fields-normalize : (s : Bytes) → fields (replace_crlf (trim_space s)) ≡ fields s
unfolding fields trim_space
fields-normalize s =
    fields-replace_crlf [] (trim_right (trim_left s))
    ∙ (fields-trim_right [] (trim_left s) ∙ fields-trim_left s)

abbrev spaceless : Bytes → Bool
spaceless [] = true
spaceless (c ∷ cs) = not (is_space c) && spaceless cs

abbrev is_word : Bytes → Bool
is_word w = not (is_empty_text w) && spaceless w

spaceless-snoc :
    (w : Bytes) (c : ℕ) → spaceless w ≡ true → is_space c ≡ false → spaceless (w ++ (c ∷ [])) ≡ true
spaceless-snoc [] c h k = rw k refl
spaceless-snoc (d ∷ w) c h k = ground (arith, h, k, spaceless-snoc w c)

All-flush :
    (w : Bytes) (rest : List Bytes)
    → spaceless w ≡ true
    → All (λ v. is_word v ≡ true) rest
    → All (λ v. is_word v ≡ true) (flush w rest)
All-flush [] rest h all = all
All-flush (c ∷ cs) rest h all = (h, all)

-- The fields of a text are words.
fields_from-words :
    (w s : Bytes) → spaceless w ≡ true → All (λ v. is_word v ≡ true) (fields_from w s)
unfolding fields_from
fields_from-words w [] h = All-flush w [] h tt
fields_from-words w (c ∷ cs) h = elim (Bool-cases (is_space c)) [
  | inl space ↦ rw space (All-flush w _ h (fields_from-words [] cs refl))
  | inr other ↦ rw other (fields_from-words (w ++ (c ∷ [])) cs (spaceless-snoc w c h other))
]

++_assoc : (a b c : Bytes) → (a ++ b) ++ c ≡ a ++ (b ++ c)
++_assoc [] b c = refl
++_assoc (x ∷ a) b c = ap (λ r. x ∷ r) (++_assoc a b c)

++_nil : (a : Bytes) → a ++ [] ≡ a
++_nil [] = refl
++_nil (x ∷ a) = ap (λ r. x ∷ r) (++_nil a)

fields_from-++ :
    (v w s : Bytes) → spaceless w ≡ true → fields_from v (w ++ s) ≡ fields_from (v ++ w) s
unfolding fields_from
fields_from-++ v [] s h = ap (λ r. fields_from r s) (sym (++_nil v))
fields_from-++ v (c ∷ w) s h =
    let letter : is_space c ≡ false = ground (arith, h) in
    rw letter (
      fields_from-++ (v ++ (c ∷ [])) w s (ground (arith, h))
      ∙ ap (λ r. fields_from r s) (++_assoc v (c ∷ []) w))

fields_from-word : (w s : Bytes) → is_word w ≡ true → fields_from w (32 ∷ s) ≡ w ∷ fields_from [] s
unfolding fields_from is_space
fields_from-word w s h = ground (arith, h)

fields_from-end : (w : Bytes) → is_word w ≡ true → fields_from w [] ≡ w ∷ []
unfolding fields_from
fields_from-end w h = ground (arith, h)

-- Words that are joined by spaces are read back.
fields-join : (ws : List Bytes) → All (λ v. is_word v ≡ true) ws → fields (join (32 ∷ []) ws) ≡ ws
unfolding fields join fields_from
fields-join [] all = refl
fields-join (w ∷ []) all =
    ap (fields_from []) (sym (++_nil w))
    ∙ (fields_from-++ [] w [] (ground (arith, all.0)) ∙ fields_from-end w all.0)
fields-join (w ∷ v ∷ ws) all =
    fields_from-++ [] w (32 ∷ join (32 ∷ []) (v ∷ ws)) (ground (arith, all.0))
    ∙ (fields_from-word w (join (32 ∷ []) (v ∷ ws)) all.0
        ∙ ap (λ r. w ∷ r) (fields-join (v ∷ ws) all.1))

fields-words : (s : Bytes) → All (λ v. is_word v ≡ true) (fields s)
unfolding fields
fields-words s = fields_from-words [] s refl

-- A normalized text has the words of the text, in their order, and is itself normalized.
pub normalize_text-words :
    (s : Bytes)
    → (fields (normalize_text s) ≡ fields s)
      × (normalize_text (normalize_text s) ≡ normalize_text s)
unfolding normalize_text collapse_spaces
normalize_text-words s =
    let words : fields (join (32 ∷ []) (fields (replace_crlf (trim_space s)))) ≡ fields s =
      rw fields-normalize (fields-join (fields s) (fields-words s)) in
    (words, ap (join (32 ∷ [])) (fields-normalize _ ∙ (words ∙ sym (fields-normalize s))))
