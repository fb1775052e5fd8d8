-- ===== src/Generation/Store.antt =====
-- internal/generation/activities.go: the storing of answers. The artifact store is an interface; the
-- store in memory of Business/Artifacts is an instance. The goroutines that store the answers of a
-- batch run in an order that is an argument, each with whether the context had ended before it.
use go_judgy.Prelude.{
  ℕ, zero, suc, Bool, true, false, Option, none, some, ◌⊎◌, inl, inr, List, [], ◌∷◌, ◌++◌, length,
  get_elem?, if◌then◌else◌, ◌==◌,
}
use go_judgy.Prelude.Int.{pos}
use go_judgy.Prelude.Bytes.{Bytes, bytes, is_empty_text, lookup}
use go_judgy.Errors.Types.{Err, wrapped, plain_error}
use go_judgy.Errors.Text.{error_text, show_int}
use go_judgy.Domain.State.{without}
use go_judgy.Domain.Judgement.{ArtifactRef}
use go_judgy.Domain.Answer.{Answer, MetadataValue, text, artifact_answer, zero_answer}
use go_judgy.Transport.Keys.{Result, wrap_error}
use go_judgy.Business.Artifacts.{
  Storage, ArtifactError, artifact_key_empty, artifact_not_found, put_artifact, artifact_exists,
  delete_artifact,
}
use go_judgy.Generation.Keys.{answer_artifact_key}

-- `business.ArtifactStore` over its contents W, and the hash.
pub record ArtifactStore (W : Type 0) : Type 0 where
  pub exists : ArtifactRef → W → W × Result Bool
  pub put : Bytes → Bytes → Bytes → W → W × Result ArtifactRef
  pub delete : ArtifactRef → W → W × Option Err

abbrev artifact_error : ArtifactError → Err
artifact_error artifact_key_empty = plain_error (bytes "artifact key cannot be empty")
artifact_error artifact_not_found = plain_error (bytes "artifact not found")

abbrev of_artifact : {A : Type 0} → ArtifactError ⊎ A → Result A
of_artifact (inl e) = inl (artifact_error e)
of_artifact (inr a) = inr a

abbrev of_deletion : Option ArtifactError → Option Err
of_deletion none = none
of_deletion (some e) = some (artifact_error e)

-- The store in memory.
abbrev pub memory : ArtifactStore Storage
memory = record {
  exists = λ ref s. (s, of_artifact (artifact_exists ref s));
  put = λ content kind key s.
      ((put_artifact content kind key s).0, of_artifact (put_artifact content kind key s).1);
  delete = λ ref s. ((delete_artifact ref s).0, of_deletion (delete_artifact ref s).1);
}

abbrev content_name : Bytes
content_name = bytes "content"

abbrev pub missing_content : Bytes → Bytes
missing_content id =
    bytes "ERROR: Content not found for answer ID "
    ++ (id ++ bytes ". This indicates a transport layer issue.")

abbrev content_or : Bytes → Option MetadataValue → Bytes
content_or missing (some (text (c ∷ cs))) = c ∷ cs
content_or missing _ = missing

-- The content that is stored: the metadata's, if it has one.
unfoldable pub content_of : Answer → Bytes
content_of a = content_or (missing_content a.id) (lookup content_name a.metadata)

-- A goroutine that runs: the index of its answer, and whether the context had ended.
pub record Turn : Type 0 where
  pub index : ℕ
  pub cancelled : Option Err

-- The results that the channel delivered so far: the answers, by index, and the first error.
pub record Collected : Type 0 where
  pub done : List (ℕ × Answer)
  pub first_error : Option Err

-- `processedAnswers[index]`: what was put there, or the zero value.
unfoldable pub answer_at : ℕ → List (ℕ × Answer) → Answer
unfolding zero_answer
answer_at index [] = zero_answer
answer_at index ((i, a) ∷ done) = if i == index then a else answer_at index done

unfoldable pub answers_from : ℕ → ℕ → List (ℕ × Answer) → List Answer
unfolding answer_at
answers_from zero index done = []
answers_from (suc n) index done = answer_at index done ∷ answers_from n (suc index) done

-- The answer with its reference, and without the content.
abbrev processed_answer : Answer → ArtifactRef → Answer
processed_answer a ref = record a { content_ref = ref; metadata = without content_name a.metadata }

abbrev pub start : Collected
start = record { done = []; first_error = none }

abbrev keep_first : Option Err → Err → Option Err
keep_first (some e) e' = some e
keep_first none e' = some e'

-- One round of the loop over the results.
unfoldable pub collect : ℕ → Answer → Result ArtifactRef → Collected → Collected
collect index a (inl e) c = record c {
  first_error =
      keep_first c.first_error
        (wrapped (bytes "answer " ++ (show_int (pos index) ++ (bytes ": " ++ error_text e))) e);
}
collect index a (inr ref) c = record c { done = (index, processed_answer a ref) ∷ c.done }

module _ {W : Type 0} (sha256_hex : Bytes → Bytes) (store : ArtifactStore W) where
  abbrev put_content : Answer → Bytes → W → W × Result ArtifactRef
  put_content a key w =
      let (w', stored) = store.put (content_of a) artifact_answer key w in
      (w', wrap_error (bytes "failed to store answer content: ") stored)

  abbrev after_exists : Answer → Bytes → W × Result Bool → W × Result ArtifactRef
  after_exists a key (w, inl e) =
      (w, wrap_error (bytes "failed to verify existing content: ") (inl e))
  after_exists a key (w, inr true) = (w, inr a.content_ref)
  after_exists a key (w, inr false) = put_content a key w

  unfoldable pub store_answer_content :
      Answer → Bytes → Bytes → Bytes → ℕ → W → W × Result ArtifactRef
  store_answer_content a workflow_id tenant_id client_idem_key index w =
      let key = answer_artifact_key sha256_hex tenant_id workflow_id client_idem_key index in
      if is_empty_text a.content_ref.key
      then put_content a key w
      else after_exists a key (store.exists a.content_ref w)

  module _ (answers : List Answer) (workflow_id tenant_id client_idem_key : Bytes) where
    abbrev pub store_one : Turn → Option Answer → Collected → W → W × Collected
    store_one t none c w = (w, c)
    store_one t (some a) c w = elim t.cancelled [
      | some e ↦ (w, collect t.index a (inl e) c)
      | none ↦
          let (w', stored) =
            store_answer_content a workflow_id tenant_id client_idem_key t.index w in
          (w', collect t.index a stored c)
    ]

    unfoldable pub store_all : List Turn → Collected → W → W × Collected
    unfolding store_answer_content collect
    store_all [] c w = (w, c)
    store_all (t ∷ turns) c w =
        let (w', c') = store_one t (get_elem? answers t.index) c w in store_all turns c' w'

  abbrev delete_found : Answer → W × Result Bool → W
  delete_found a (w, inr true) = (store.delete a.content_ref w).0
  delete_found a (w, inr false) = w
  delete_found a (w, inl e) = w

  abbrev pub clean_one : Answer → W → W
  clean_one a w =
      if is_empty_text a.content_ref.key then w else delete_found a (store.exists a.content_ref w)

  -- `cleanupArtifacts`.
  unfoldable pub cleanup_artifacts : List Answer → W → W
  cleanup_artifacts [] w = w
  cleanup_artifacts (a ∷ answers) w = cleanup_artifacts answers (clean_one a w)

  abbrev pub finish_storing : List Answer → Option Err → W → W × Result (List Answer)
  finish_storing answers none w = (w, inr answers)
  finish_storing answers (some e) w = (cleanup_artifacts answers w, inl e)

  unfoldable pub store_answer_artifacts :
      List Answer → Bytes → Bytes → Bytes → List Turn → W → W × Result (List Answer)
  unfolding store_all answers_from cleanup_artifacts
  store_answer_artifacts answers workflow_id tenant_id client_idem_key turns w =
      let (w', c) = store_all answers workflow_id tenant_id client_idem_key turns start w in
      finish_storing (answers_from (length answers) 0 c.done) c.first_error w'
