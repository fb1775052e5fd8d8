-- ===== src/Generation/Keys.antt =====
-- internal/generation/activities.go: the keys of stored answers. Texts are ASCII, and the hexadecimal
-- SHA-256 is a parameter.
use go_judgy.Prelude.{
  ℕ, zero, suc, Bool, false, ◌&&◌, ◌||◌, [], ◌∷◌, ◌++◌, ltb, leb, ◌==◌, length, if◌then◌else◌,
}
use go_judgy.Prelude.Int.{pos}
use go_judgy.Prelude.Bytes.{Bytes, bytes, is_empty_text}
use go_judgy.Errors.Text.{show_int, to_lower}

-- `%02d` of a number that is not negative.
unfoldable pub show_two : ℕ → Bytes
show_two n = if ltb n 10 then b'0' ∷ show_int (pos n) else show_int (pos n)

-- `s[:n]` where `n` is not above the length.
unfoldable pub take : ℕ → Bytes → Bytes
take zero s = []
take (suc n) [] = []
take (suc n) (c ∷ s) = c ∷ take n s

abbrev hash_key_length : ℕ
hash_key_length = 12

abbrev fallback_hash_length : ℕ
fallback_hash_length = 8

abbrev is_slug_letter : ℕ → Bool
is_slug_letter c = (leb b'a' c && leb c b'z') || (leb b'0' c && leb c b'9')

abbrev ends_in_dash : Bytes → Bool
ends_in_dash [] = false
ends_in_dash (c ∷ []) = c == b'-'
ends_in_dash (c ∷ d ∷ cs) = ends_in_dash (d ∷ cs)

-- One round of the loop of `slug`, on what the builder holds.
unfoldable slug_step : Bytes → ℕ → Bytes
slug_step out c =
    if is_slug_letter c
    then out ++ c ∷ []
    else if is_empty_text out || ends_in_dash out
    then out
    else out ++ b'-' ∷ []

unfoldable slug_from : Bytes → Bytes → Bytes
unfolding slug_step
slug_from out [] = out
slug_from out (c ∷ cs) = slug_from (slug_step out c) cs

-- `strings.Trim(s, "-")`.
unfoldable trim_left_dashes : Bytes → Bytes
trim_left_dashes [] = []
trim_left_dashes (c ∷ cs) = if c == b'-' then trim_left_dashes cs else c ∷ cs

unfoldable trim_right_dashes : Bytes → Bytes
trim_right_dashes [] = []
trim_right_dashes (c ∷ cs) =
    let rest = trim_right_dashes cs in if is_empty_text rest && c == b'-' then [] else c ∷ rest

unfoldable slug : Bytes → Bytes
unfolding slug_from trim_left_dashes trim_right_dashes to_lower
slug s = trim_right_dashes (trim_left_dashes (slug_from [] (to_lower s)))

module _ (sha256_hex : Bytes → Bytes) where
  -- `shortHash`.
  unfoldable short_hash : Bytes → ℕ → Bytes
  unfolding take
  short_hash input n = let hex = sha256_hex input in if ltb n (length hex) then take n hex else hex

  unfoldable pub answer_artifact_key : Bytes → Bytes → Bytes → ℕ → Bytes
  unfolding short_hash slug show_two
  answer_artifact_key tenant_id workflow_id client_idem_key idx =
      bytes "answers/"
      ++ (tenant_id
          ++ (bytes "/wf-"
              ++ (slug workflow_id
                  ++ (bytes "/idem-"
                      ++ (short_hash client_idem_key hash_key_length
                          ++ (bytes "/cand-" ++ (show_two idx ++ bytes ".txt")))))))
