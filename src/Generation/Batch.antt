-- ===== src/Generation/Batch.antt =====
-- The storing of a batch of answers with the store in memory: what is there when it succeeds.
use go_judgy.Prelude.{
  ℕ, ◌+◌, Bool, true, false, not, ◌&&◌, ◌||◌, none, some, is_some, ◌⊎◌, inl, inr, List, [], ◌∷◌,
  length, get_elem?, get_elem?-lt, ◌==◌, ◌≡◌, subst, arith, Bool-cases, Option-cases, ==_iff,
}
use go_judgy.Prelude.Bytes.{Bytes}
use go_judgy.Domain.Answer.{Answer}
use go_judgy.Transport.Keys.{Result-cases}
use go_judgy.Business.Artifacts.{Storage}
use go_judgy.Generation.Store.{
  memory, Turn, Collected, collect, store_one, store_all, answer_at, answers_from, start,
  store_answer_artifacts,
}
use go_judgy.Generation.Contents.{Present}
use go_judgy.Generation.Rounds.{
  collect-failed, collect_self, collect-key, get_elem?-answers_from, stored_at, stored-keeps,
  stored-Present, finish_storing-ok,
}

-- The goroutine of index i runs before the context ends.
abbrev pub runs : ℕ → List Turn → Bool
runs i [] = false
runs i (t ∷ turns) = (t.index == i && not (is_some t.cancelled)) || runs i turns

module _ (sha256_hex : Bytes → Bytes) (workflow_id tenant_id client_idem_key : Bytes) where
  module _ (answers : List Answer) where
    abbrev pub step : Turn → Collected → Storage → Storage × Collected
    step t c s =
        store_one sha256_hex memory answers workflow_id tenant_id client_idem_key t
          (get_elem? answers t.index) c s

    abbrev pub all_steps : List Turn → Collected → Storage → Storage × Collected
    all_steps turns c s =
        store_all sha256_hex memory answers workflow_id tenant_id client_idem_key turns c s

    pub step-keeps :
        (j : Bytes) (t : Turn) (c : Collected) (s : Storage)
        → Present j s
        → Present j (step t c s).0
    step-keeps j t c s h = elim (Option-cases (get_elem? answers t.index)) [
      | inl e ↦ rw e h
      | inr (a, e) ↦ elim (Option-cases t.cancelled) [
        | inl g ↦
            rw (e, g)
              (stored-keeps sha256_hex workflow_id tenant_id client_idem_key j a t.index s h)
        | inr (err, g) ↦ rw (e, g) h
      ]
    ]

    store_all-keeps :
        (j : Bytes) (turns : List Turn) (c : Collected) (s : Storage)
        → Present j s
        → Present j (all_steps turns c s).0
    unfolding store_all
    store_all-keeps j [] c s h = h
    store_all-keeps j (t ∷ turns) c s h =
        store_all-keeps j turns (step t c s).1 (step t c s).0 (step-keeps j t c s h)

    -- An error that was noted stays.
    step-failed :
        (t : Turn) (c : Collected) (s : Storage)
        → is_some c.first_error ≡ true
        → is_some (step t c s).1.first_error ≡ true
    unfolding collect
    step-failed t c s h = ground arith

    -- The references of the answers that are stored, or of none at the index.
    abbrev Kept : ℕ → Collected → Storage → Type 0
    Kept i c s = Present (answer_at i c.done).content_ref.key s

    step-Kept :
        (i : ℕ) (t : Turn) (c : Collected) (s : Storage)
        → Kept i c s
        → Kept i (step t c s).1 (step t c s).0
    unfolding collect
    step-Kept i t c s h = elim (Option-cases (get_elem? answers t.index)) [
      | inl e ↦ rw e h
      | inr (a, e) ↦ elim (Option-cases t.cancelled) [
        | inl g ↦
            rw (e, g)
              (collect-key
                (λ k.
                  Present k
                    (stored_at sha256_hex workflow_id tenant_id client_idem_key a t.index s).0)
                i t.index a
                (stored_at sha256_hex workflow_id tenant_id client_idem_key a t.index s).1 c
                (stored-keeps sha256_hex workflow_id tenant_id client_idem_key
                  (answer_at i c.done).content_ref.key a t.index s h)
                (λ ref same.
                  stored-Present sha256_hex workflow_id tenant_id client_idem_key a t.index s ref))
        | inr (err, g) ↦ rw (e, g) h
      ]
    ]

    -- A goroutine that runs keeps its answer, or there is an error.
    step-runs :
        (t : Turn) (a : Answer) (c : Collected) (s : Storage)
        → get_elem? answers t.index ≡ some a
        → t.cancelled ≡ none
        → Kept t.index (step t c s).1 (step t c s).0 ⊎ (is_some (step t c s).1.first_error ≡ true)
    step-runs t a c s at live =
        elim (Result-cases
          (stored_at sha256_hex workflow_id tenant_id client_idem_key a t.index s).1) [
            | inl (e, failed) ↦ inr (rw (at, live, failed) (collect-failed t.index a e c))
            | inr (ref, ok) ↦ inl (
                rw (at, live, ok)
                  (rw (collect_self t.index a ref c) (
                    stored-Present sha256_hex workflow_id tenant_id client_idem_key a t.index s ref
                      ok)))
          ]

    -- Once every goroutine of the index that runs has its answer or an error is noted, this stays.
    store_all-Kept :
        (i : ℕ) (turns : List Turn) (c : Collected) (s : Storage)
        → Kept i c s
        → Kept i (all_steps turns c s).1 (all_steps turns c s).0
    unfolding store_all
    store_all-Kept i [] c s h = h
    store_all-Kept i (t ∷ turns) c s h =
        store_all-Kept i turns (step t c s).1 (step t c s).0 (step-Kept i t c s h)

    store_all-failed :
        (turns : List Turn) (c : Collected) (s : Storage)
        → is_some c.first_error ≡ true
        → is_some (all_steps turns c s).1.first_error ≡ true
    unfolding store_all
    store_all-failed [] c s h = h
    store_all-failed (t ∷ turns) c s h =
        store_all-failed turns (step t c s).1 (step t c s).0 (step-failed t c s h)

    store_all-runs :
        (i : ℕ) (a : Answer) (turns : List Turn) (c : Collected) (s : Storage)
        → get_elem? answers i ≡ some a
        → runs i turns ≡ true
        → Kept i (all_steps turns c s).1 (all_steps turns c s).0
          ⊎ (is_some (all_steps turns c s).1.first_error ≡ true)
    unfolding store_all
    store_all-runs i a [] c s at h = cc
    store_all-runs i a (t ∷ turns) c s at h =
        let c' = (step t c s).1 in
        let s' = (step t c s).0 in
        elim (Bool-cases (t.index == i)) [
          | inr other ↦ store_all-runs i a turns c' s' at (ground arith)
          | inl e ↦ elim (Option-cases t.cancelled) [
            | inr (err, g) ↦ store_all-runs i a turns c' s' at (ground arith)
            | inl g ↦
                let same : t.index ≡ i = (==_iff t.index i).0 e in
                elim (step-runs t a c s (rw same at) g) [
                  | inl kept ↦ inl (
                      store_all-Kept i turns c' s'
                        (subst (λ n. Kept n (step t c s).1 (step t c s).0) same kept))
                  | inr failed ↦ inr (store_all-failed turns c' s' failed)
                ]
          ]
        ]

    -- When the storing of a batch in memory succeeds, the answer of every goroutine that ran stands
    -- in the result at its index, with a reference whose key is in the store.
    pub store_answer_artifacts-readable :
        (turns : List Turn) (s s' : Storage) (stored : List Answer) (i : ℕ) (a : Answer)
        → store_answer_artifacts sha256_hex memory answers workflow_id tenant_id client_idem_key
            turns s
          ≡ (s', inr stored)
        → get_elem? answers i ≡ some a
        → runs i turns ≡ true
        → (b : Answer) × (get_elem? stored i ≡ some b) × Present b.content_ref.key s'
    unfolding store_answer_artifacts
    store_answer_artifacts-readable turns s s' stored i a run at h =
        let ended = all_steps turns start s in
        let (fine, result, state) =
          finish_storing-ok sha256_hex workflow_id tenant_id client_idem_key
            (answers_from (length answers) 0 ended.1.done) stored ended.1.first_error ended.0 s'
            run in
        let found =
          get_elem?-answers_from (length answers) i 0 ended.1.done (get_elem?-lt answers i a at) in
        elim (store_all-runs i a turns start s at h) [
          | inr failed ↦ cc
          | inl kept ↦ (
            answer_at (0 + i) ended.1.done,
            rw (← result) found,
            rw (← state) (
                subst (λ n. Present (answer_at n ended.1.done).content_ref.key ended.0)
                  (omega arith) kept),
          )
        ]
