-- ===== src/Transport/Words.antt =====
-- internal/llm/transport/idempotency.go: the normalization of a text, with the functions of `strings`
-- that it calls. Texts are ASCII.
use go_judgy.Prelude.{Bool, ◌&&◌, ◌||◌, List, [], ◌∷◌, ◌++◌, leb, ◌==◌, if◌then◌else◌}
use go_judgy.Prelude.Bytes.{Bytes, is_empty_text}
use Prim.Native.Nat.{ℕ}

-- `unicode.IsSpace`: tab, newline, vertical tab, form feed, carriage return and space.
unfoldable pub is_space : ℕ → Bool
is_space c = c == 32 || (leb 9 c && leb c 13)

-- `strings.TrimSpace`, from the left and from the right.
unfoldable pub trim_left : Bytes → Bytes
trim_left [] = []
trim_left (c ∷ cs) = let rest = trim_left cs in if is_space c then rest else c ∷ cs

unfoldable pub trim_right : Bytes → Bytes
trim_right [] = []
trim_right (c ∷ cs) =
    let rest = trim_right cs in if is_space c && is_empty_text rest then [] else c ∷ rest

unfoldable pub trim_space : Bytes → Bytes
trim_space s = trim_right (trim_left s)

-- `strings.ReplaceAll(s, "\r\n", "\n")`.
unfoldable pub replace_crlf : Bytes → Bytes
replace_crlf [] = []
replace_crlf (c ∷ []) = c ∷ []
replace_crlf (c ∷ d ∷ cs) =
    let after_pair = replace_crlf cs in
    let after_one = replace_crlf (d ∷ cs) in
    if c == 13 && d == 10 then 10 ∷ after_pair else c ∷ after_one

-- A word ends, if it is not empty.
abbrev pub flush : Bytes → List Bytes → List Bytes
flush w rest = if is_empty_text w then rest else w ∷ rest

-- `strings.Fields`, with the word that is being read.
unfoldable pub fields_from : Bytes → Bytes → List Bytes
fields_from w [] = flush w []
fields_from w (c ∷ cs) =
    let next_word = fields_from [] cs in
    let same_word = fields_from (w ++ (c ∷ [])) cs in
    if is_space c then flush w next_word else same_word

unfoldable pub fields : Bytes → List Bytes
fields s = fields_from [] s

-- `strings.Join(words, sep)`.
unfoldable pub join : Bytes → List Bytes → Bytes
join sep [] = []
join sep (w ∷ []) = w
join sep (w ∷ v ∷ ws) = w ++ (sep ++ join sep (v ∷ ws))

-- `collapseSpaces` and `normalizeText`.
unfoldable pub collapse_spaces : Bytes → Bytes
collapse_spaces s = join (32 ∷ []) (fields s)

unfoldable pub normalize_text : Bytes → Bytes
normalize_text text = collapse_spaces (replace_crlf (trim_space text))
