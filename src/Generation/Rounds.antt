-- ===== src/Generation/Rounds.antt =====
-- What one goroutine leaves in the store in memory, and one round of the loop over the results.
use go_judgy.Prelude.{
  ℕ, zero, suc, ◌+◌, ◌<◌, true, false, Option, none, some, is_some, inl, inr, List, get_elem?, ◌==◌,
  ◌≡◌, refl, ap, ◌∙◌, arith, Bool-cases, ==_iff,
}
use go_judgy.Prelude.Bytes.{Bytes, is_empty_text, lookup-insert_self}
use go_judgy.Errors.Types.{Err}
use go_judgy.Domain.Judgement.{ArtifactRef}
use go_judgy.Domain.Answer.{Answer, artifact_answer}
use go_judgy.Transport.Keys.{Result}
use go_judgy.Business.Artifacts.{Storage, put_artifact, artifact_exists}
use go_judgy.Generation.Keys.{answer_artifact_key}
use go_judgy.Generation.Store.{
  memory, content_of, store_answer_content, Collected, collect, answer_at, answers_from,
  cleanup_artifacts, finish_storing,
}
use go_judgy.Generation.Contents.{Present, put_artifact-Present}

pub collect-failed :
    (index : ℕ) (a : Answer) (e : Err) (c : Collected)
    → is_some (collect index a (inl e) c).first_error ≡ true
unfolding collect
collect-failed index a e c = ground arith

pub collect_self :
    (index : ℕ) (a : Answer) (ref : ArtifactRef) (c : Collected)
    → (answer_at index (collect index a (inr ref) c).done).content_ref ≡ ref
unfolding collect answer_at
collect_self index a ref c = ground arith

-- What holds of the key of an index and of the key of a new reference holds after a round.
pub collect-key :
    (P : Bytes → Type 0) (i index : ℕ) (a : Answer) (r : Result ArtifactRef) (c : Collected)
    → P (answer_at i c.done).content_ref.key
    → ((ref : ArtifactRef) → index ≡ i → r ≡ inr ref → P ref.key)
    → P (answer_at i (collect index a r c).done).content_ref.key
unfolding collect answer_at
collect-key P i index a (inl e) c h new = h
collect-key P i index a (inr ref) c h new = elim (Bool-cases (index == i)) [
  | inl e ↦ rw e (new ref ((==_iff index i).0 e) refl)
  | inr other ↦ rw other h
]

pub get_elem?-answers_from :
    (n i k : ℕ) (done : List (ℕ × Answer))
    → i < n
    → get_elem? (answers_from n k done) i ≡ some (answer_at (k + i) done)
unfolding answers_from
get_elem?-answers_from zero i k done h = absurd (omega arith)
get_elem?-answers_from (suc n) zero k done h =
    let e : k ≡ k + 0 = omega arith in ap (λ j. some (answer_at j done)) e
get_elem?-answers_from (suc n) (suc i) k done h =
    let e : suc k + i ≡ k + suc i = omega arith in
    get_elem?-answers_from n i (suc k) done (omega arith) ∙ ap (λ j. some (answer_at j done)) e

module _ (sha256_hex : Bytes → Bytes) (workflow_id tenant_id client_idem_key : Bytes) where
  abbrev pub stored_at : Answer → ℕ → Storage → Storage × Result ArtifactRef
  stored_at a index s =
      store_answer_content sha256_hex memory a workflow_id tenant_id client_idem_key index s

  key-some :
      (index : ℕ)
      → is_empty_text (answer_artifact_key sha256_hex tenant_id workflow_id client_idem_key index)
        ≡ false
  unfolding answer_artifact_key
  key-some index = refl

  pub stored-keeps :
      (j : Bytes) (a : Answer) (index : ℕ) (s : Storage)
      → Present j s
      → Present j (stored_at a index s).0
  unfolding store_answer_content artifact_exists
  stored-keeps j a index s h =
      let key = answer_artifact_key sha256_hex tenant_id workflow_id client_idem_key index in
      ground (arith, put_artifact-Present j (content_of a) artifact_answer key s h)

  put-Present :
      (content kind key : Bytes) (s : Storage) (ref : ArtifactRef)
      → is_empty_text key ≡ false
      → (put_artifact content kind key s).1 ≡ inr ref
      → Present ref.key (put_artifact content kind key s).0
  unfolding put_artifact
  put-Present content kind key s ref h r = ground (arith, lookup-insert_self key content s)

  -- The reference that is returned can be read.
  pub stored-Present :
      (a : Answer) (index : ℕ) (s : Storage) (ref : ArtifactRef)
      → (stored_at a index s).1 ≡ inr ref
      → Present ref.key (stored_at a index s).0
  unfolding store_answer_content artifact_exists
  stored-Present a index s ref h =
      let key = answer_artifact_key sha256_hex tenant_id workflow_id client_idem_key index in
      ground (arith, key-some index, put-Present (content_of a) artifact_answer key s ref)

  pub stored-existing :
      (a : Answer) (index : ℕ) (s : Storage)
      → is_empty_text a.content_ref.key ≡ false
      → Present a.content_ref.key s
      → stored_at a index s ≡ (s, inr a.content_ref)
  unfolding store_answer_content artifact_exists
  stored-existing a index s h there = rw (h, there) refl

  pub finish_storing-ok :
      (l stored : List Answer) (first : Option Err) (w s' : Storage)
      → finish_storing sha256_hex memory l first w ≡ (s', inr stored)
      → (first ≡ none) × (l ≡ stored) × (w ≡ s')
  finish_storing-ok l stored none w s' h = (refl, cc, cc)
  finish_storing-ok l stored (some e) w s' h = cc

  pub finish_storing-failed :
      (l : List Answer) (first : Option Err) (w s' : Storage) (e : Err)
      → finish_storing sha256_hex memory l first w ≡ (s', inl e)
      → cleanup_artifacts sha256_hex memory l w ≡ s'
  finish_storing-failed l none w s' e h = cc
  finish_storing-failed l (some e') w s' e h = cc
