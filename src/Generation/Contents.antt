-- ===== src/Generation/Contents.antt =====
-- What becomes of the contents of answers, with the store in memory.
use go_judgy.Prelude.{
  ℕ, zero, suc, Option-cases, true, false, none, some, is_some, inl, inr, List, [], ◌∷◌, length,
  get_elem?, ◌≡◌, refl, arith, Bool-cases,
}
use go_judgy.Prelude.Int.{pos}
use go_judgy.Prelude.Bytes.{
  Bytes, is_empty_text, beq, lookup, insert, beq→eq, beq_refl, lookup-insert_self, lookup-insert_ne,
}
use go_judgy.Domain.StateLaws.{lookup-without}
use go_judgy.Domain.Judgement.{ArtifactRef}
use go_judgy.Domain.Answer.{Answer, artifact_answer}
use go_judgy.Transport.{Request, Response}
use go_judgy.Transport.Conversion.{Stamp, response_to_answer}
use go_judgy.Business.Artifacts.{Storage, put_artifact, artifact_exists, delete_artifact}
use go_judgy.Generation.Keys.{answer_artifact_key}
use go_judgy.Generation.Store.{
  memory, missing_content, content_of, store_answer_content, clean_one, cleanup_artifacts,
}

-- An answer that was made of a response is stored as the error text, whatever the response says: with
-- the store in memory and a key of the answer that is not in the store, the store gets that text under
-- the key of the candidate, and the reference to it is returned.
pub store_answer_content-response :
    (sha256_hex : Bytes → Bytes) (t : Stamp) (resp : Response) (req : Request)
    (workflow_id tenant_id client_idem_key : Bytes) (index : ℕ) (s : Storage)
    → lookup (response_to_answer t resp req).content_ref.key s ≡ none
    → let key = answer_artifact_key sha256_hex tenant_id workflow_id client_idem_key index in
      store_answer_content sha256_hex memory
        (response_to_answer t resp req)
        workflow_id
        tenant_id
        client_idem_key
        index
        s
      ≡ (
        insert key (missing_content t.id) s,
        inr (record {
          key = key;
          size = pos (length (missing_content t.id));
          kind = artifact_answer;
        }),
      )
unfolding store_answer_content content_of response_to_answer put_artifact artifact_exists
    answer_artifact_key
store_answer_content-response sha256_hex t resp req workflow_id tenant_id client_idem_key index s
      absent =
    rw absent refl

-- A key is in the store.
abbrev pub Present : Bytes → Storage → Type 0
Present k s = is_some (lookup k s) ≡ true

insert-Present : (j k v : Bytes) (s : Storage) → Present j s → Present j (insert k v s)
insert-Present j k v s h = elim (Bool-cases (beq k j)) [
  | inl e ↦ rw (beq→eq k j e, lookup-insert_self j v s) refl
  | inr other ↦ rw (lookup-insert_ne j k v s other) h
]

pub put_artifact-Present :
    (j content kind key : Bytes) (s : Storage)
    → Present j s
    → Present j (put_artifact content kind key s).0
unfolding put_artifact
put_artifact-Present j content kind key s h = ground (arith, insert-Present j key content s h)

delete_artifact-gone :
    (k : Bytes) (ref : ArtifactRef) (s : Storage)
    → lookup k s ≡ none
    → lookup k (delete_artifact ref s).0 ≡ none
unfolding delete_artifact
delete_artifact-gone k ref s h = ground (arith, lookup-without k ref.key s)

delete_artifact_self :
    (ref : ArtifactRef) (s : Storage)
    → is_empty_text ref.key ≡ false
    → lookup ref.key (delete_artifact ref s).0 ≡ none
unfolding delete_artifact
delete_artifact_self ref s h = rw (h, lookup-without ref.key ref.key s, beq_refl ref.key) refl

module _ (sha256_hex : Bytes → Bytes) where
  clean_one-gone :
      (k : Bytes) (a : Answer) (s : Storage)
      → lookup k s ≡ none
      → lookup k (clean_one sha256_hex memory a s) ≡ none
  unfolding artifact_exists
  clean_one-gone k a s h = ground (arith, delete_artifact-gone k a.content_ref s h)

  clean_one_self :
      (a : Answer) (s : Storage)
      → is_empty_text a.content_ref.key ≡ false
      → lookup a.content_ref.key (clean_one sha256_hex memory a s) ≡ none
  unfolding artifact_exists
  clean_one_self a s h = elim (Option-cases (lookup a.content_ref.key s)) [
    | inl absent ↦ rw (h, absent) absent
    | inr (v, found) ↦ rw (h, found) (delete_artifact_self a.content_ref s h)
  ]

  cleanup-gone :
      (k : Bytes) (answers : List Answer) (s : Storage)
      → lookup k s ≡ none
      → lookup k (cleanup_artifacts sha256_hex memory answers s) ≡ none
  unfolding cleanup_artifacts
  cleanup-gone k [] s h = h
  cleanup-gone k (a ∷ answers) s h =
      cleanup-gone k answers (clean_one sha256_hex memory a s) (clean_one-gone k a s h)

  -- `cleanupArtifacts` removes the content of every answer of its list that has a key.
  pub cleanup-deletes :
      (answers : List Answer) (i : ℕ) (a : Answer) (s : Storage)
      → get_elem? answers i ≡ some a
      → is_empty_text a.content_ref.key ≡ false
      → lookup a.content_ref.key (cleanup_artifacts sha256_hex memory answers s) ≡ none
  unfolding cleanup_artifacts
  cleanup-deletes [] i a s at h = cc
  cleanup-deletes (b ∷ answers) zero a s at h =
      let same : b ≡ a = cc in
      rw same (
        cleanup-gone a.content_ref.key answers (clean_one sha256_hex memory a s)
          (clean_one_self a s h))
  cleanup-deletes (b ∷ answers) (suc i) a s at h =
      cleanup-deletes answers i a (clean_one sha256_hex memory b s) at h
