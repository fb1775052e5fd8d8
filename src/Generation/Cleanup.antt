-- ===== src/Generation/Cleanup.antt =====
-- What the cleanup after a failure removes from the store in memory.
use go_judgy.Prelude.{
  ℕ, true, false, none, some, inl, inr, List, [], ◌∷◌, length, get_elem?, get_elem?-lt, ◌==◌, ◌≡◌,
  subst, ap, ◌∙◌, arith, Bool-cases, Option-cases, ==_iff,
}
use go_judgy.Prelude.Bytes.{Bytes, is_empty_text, lookup}
use go_judgy.Errors.Types.{Err}
use go_judgy.Domain.Judgement.{ArtifactRef}
use go_judgy.Domain.Answer.{Answer}
use go_judgy.Transport.Keys.{Result}
use go_judgy.Business.Artifacts.{Storage}
use go_judgy.Generation.Store.{
  memory, Turn, Collected, collect, store_all, answer_at, answers_from, start,
  store_answer_artifacts,
}
use go_judgy.Generation.Contents.{Present, cleanup-deletes}
use go_judgy.Generation.Rounds.{
  collect-key, get_elem?-answers_from, finish_storing-failed, stored-existing, stored_at,
}
use go_judgy.Generation.Batch.{runs, step, all_steps, step-keeps}

module _ (sha256_hex : Bytes → Bytes) (workflow_id tenant_id client_idem_key : Bytes)
    (answers : List Answer) where
  abbrev one : Turn → Collected → Storage → Storage × Collected
  one t c s = step sha256_hex workflow_id tenant_id client_idem_key answers t c s

  abbrev all : List Turn → Collected → Storage → Storage × Collected
  all turns c s = all_steps sha256_hex workflow_id tenant_id client_idem_key answers turns c s

  abbrev put_at : Answer → ℕ → Storage → Storage × Result ArtifactRef
  put_at b index s = stored_at sha256_hex workflow_id tenant_id client_idem_key b index s

  abbrev key_at : ℕ → Collected → Bytes
  key_at i c = (answer_at i c.done).content_ref.key

  module _ (i : ℕ) (a : Answer) (at : get_elem? answers i ≡ some a)
      (named : is_empty_text a.content_ref.key ≡ false) where
    -- The reference of an answer whose content is in the store is returned as it is.
    existing :
        (t : Turn) (b : Answer) (s : Storage) (ref : ArtifactRef)
        → Present a.content_ref.key s
        → get_elem? answers t.index ≡ some b
        → t.index ≡ i
        → (put_at b t.index s).1 ≡ inr ref
        → ref.key ≡ a.content_ref.key
    existing t b s ref there e same r =
        let eb : b ≡ a = cc (ap (λ n. get_elem? answers n) same) in
        let r' : (put_at a t.index s).1 ≡ inr ref =
          subst (λ x. (put_at x t.index s).1 ≡ inr ref) eb r in
        let kept : (put_at a t.index s).1 ≡ inr a.content_ref =
          ap (λ p. p.1)
            (stored-existing sha256_hex workflow_id tenant_id client_idem_key a t.index s named
              there) in
        cc (kept, r')

    step-existing :
        (t : Turn) (c : Collected) (s : Storage)
        → Present a.content_ref.key s
        → key_at i c ≡ a.content_ref.key
        → key_at i (one t c s).1 ≡ a.content_ref.key
    unfolding collect
    step-existing t c s there h = elim (Option-cases (get_elem? answers t.index)) [
      | inl e ↦ rw e h
      | inr (b, e) ↦ elim (Option-cases t.cancelled) [
        | inr (err, g) ↦ rw (e, g) h
        | inl g ↦
            rw (e, g)
              (collect-key (λ k. k ≡ a.content_ref.key) i t.index b (put_at b t.index s).1 c h
                (λ ref same r. existing t b s ref there e same r))
      ]
    ]

    -- The goroutine of the index keeps that reference.
    step-own :
        (t : Turn) (c : Collected) (s : Storage)
        → Present a.content_ref.key s
        → t.index ≡ i
        → t.cancelled ≡ none
        → key_at i (one t c s).1 ≡ a.content_ref.key
    unfolding collect answer_at
    step-own t c s there same live =
        let own : get_elem? answers t.index ≡ some a = ap (λ n. get_elem? answers n) same ∙ at in
        rw
          (
            own,
            live,
            stored-existing sha256_hex workflow_id tenant_id client_idem_key a t.index s named
                there,
          )
          (ground arith)

    all-existing :
        (turns : List Turn) (c : Collected) (s : Storage)
        → Present a.content_ref.key s
        → key_at i c ≡ a.content_ref.key
        → key_at i (all turns c s).1 ≡ a.content_ref.key
    unfolding store_all
    all-existing [] c s there h = h
    all-existing (t ∷ turns) c s there h =
        all-existing turns (one t c s).1 (one t c s).0
          (step-keeps sha256_hex workflow_id tenant_id client_idem_key answers a.content_ref.key t c
            s there)
          (step-existing t c s there h)

    all-own :
        (turns : List Turn) (c : Collected) (s : Storage)
        → Present a.content_ref.key s
        → runs i turns ≡ true
        → key_at i (all turns c s).1 ≡ a.content_ref.key
    unfolding store_all
    all-own [] c s there h = cc
    all-own (t ∷ turns) c s there h =
        let c' = (one t c s).1 in
        let s' = (one t c s).0 in
        let there' =
          step-keeps sha256_hex workflow_id tenant_id client_idem_key answers a.content_ref.key t c
            s there in
        elim (Bool-cases (t.index == i)) [
          | inr other ↦ all-own turns c' s' there' (ground arith)
          | inl e ↦ elim (Option-cases t.cancelled) [
            | inr (err, g) ↦ all-own turns c' s' there' (ground arith)
            | inl g ↦
                all-existing turns c' s' there' (step-own t c s there ((==_iff t.index i).0 e) g)
          ]
        ]

    -- When the storing of a batch in memory fails, an answer whose goroutine ran and whose content was
    -- in the store before the call has lost that content: the cleanup deletes it.
    pub store_answer_artifacts-deletes :
        (turns : List Turn) (s s' : Storage) (e : Err)
        → Present a.content_ref.key s
        → runs i turns ≡ true
        → store_answer_artifacts sha256_hex memory answers workflow_id tenant_id client_idem_key
            turns s
          ≡ (s', inl e)
        → lookup a.content_ref.key s' ≡ none
    unfolding store_answer_artifacts
    store_answer_artifacts-deletes turns s s' e there h run =
        let ended = all turns start s in
        let key = all-own turns start s there h in
        let cleaned =
          finish_storing-failed sha256_hex workflow_id tenant_id client_idem_key
            (answers_from (length answers) 0 ended.1.done) ended.1.first_error ended.0 s' e run in
        rw (← cleaned, ← key)
          (cleanup-deletes sha256_hex (answers_from (length answers) 0 ended.1.done) i
            (answer_at i ended.1.done) ended.0
            (get_elem?-answers_from (length answers) i 0 ended.1.done (get_elem?-lt answers i a at)
              ∙ ap (λ n. some (answer_at n ended.1.done)) (omega arith))
            (rw key named))
