-- ===== src/Business/Artifacts.antt =====
-- internal/llm/business/artifacts.go: the store of artifacts in memory. Each operation holds the mutex
-- throughout and is one step.
use go_judgy.Prelude.{
  ◌≡◌, refl, Bool, false, Option, none, some, is_some, ◌⊎◌, inl, inr, List, length, if◌then◌else◌,
}
use go_judgy.Prelude.Int.{pos}
use go_judgy.Prelude.Bytes.{Bytes, is_empty_text, lookup, insert, lookup-insert_self}
use go_judgy.Domain.State.{without}
use go_judgy.Domain.Judgement.{ArtifactRef}

pub data ArtifactError : Type 0 where
  artifact_key_empty artifact_not_found : ArtifactError

abbrev pub Storage : Type 0
Storage = List (Bytes × Bytes)

abbrev found : Option Bytes → ArtifactError ⊎ Bytes
found none = inl artifact_not_found
found (some content) = inr content

unfoldable pub get_artifact : ArtifactRef → Storage → ArtifactError ⊎ Bytes
get_artifact ref s =
    if is_empty_text ref.key then inl artifact_key_empty else found (lookup ref.key s)

unfoldable pub put_artifact :
    Bytes → Bytes → Bytes → Storage → Storage × (ArtifactError ⊎ ArtifactRef)
put_artifact content kind key s = if is_empty_text key then (s, inl artifact_key_empty) else (
  insert key content s,
  inr (record { key = key; size = pos (length content); kind = kind }),
)

unfoldable pub artifact_exists : ArtifactRef → Storage → ArtifactError ⊎ Bool
artifact_exists ref s =
    if is_empty_text ref.key then inl artifact_key_empty else inr (is_some (lookup ref.key s))

unfoldable pub delete_artifact : ArtifactRef → Storage → Storage × Option ArtifactError
unfolding without
delete_artifact ref s =
    if is_empty_text ref.key then (s, some artifact_key_empty) else (without ref.key s, none)

-- The content that is put under a key is read by the reference that `Put` returns.
get_artifact-put :
    (content kind key : Bytes) (s : Storage)
    → is_empty_text key ≡ false
    → get_artifact
        (record { key = key; size = pos (length content); kind = kind })
        (put_artifact content kind key s).0
      ≡ inr content
unfolding get_artifact put_artifact
get_artifact-put content kind key s h = rw (h, lookup-insert_self key content s) refl
