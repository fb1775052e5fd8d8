-- ===== src/Transport/PayloadLaws.antt =====
-- internal/llm/transport/idempotency.go: which requests have one key.
use go_judgy.Prelude.{◌≡◌, ◌∙◌, refl, sym, ap, none, List, [], ◌∷◌, ◌++◌, map}
use mathlib.Core.List.{Permᴰ}
use mathlib.Core.List.Permᴰ
use go_judgy.Prelude.Bytes.{Bytes, bytes, is_empty_text}
use go_judgy.Floats.{Floats}
use go_judgy.Domain.Score.{Answer}
use go_judgy.Domain.Winner.{lt_bytes}
use go_judgy.Aggregation.Sorting.{sort-perm}
use go_judgy.Aggregation.Order.{lt_bytes-IsLinear}
use go_judgy.Transport.{OperationType, op_generation, op_scoring, Request}
use go_judgy.Transport.Words.{
  trim_space, trim_left, trim_right, replace_crlf, fields_from, fields, join, normalize_text,
  collapse_spaces,
}
use go_judgy.Transport.WordsLaws.{fields-normalize}
use go_judgy.Transport.Payload.{
  build_messages, normalize_system, answers_part, build_canonical_payload,
  build_canonical_payload_from_generate,
}
use go_judgy.Transport.Keys.{Codec, generate_idem_key}

map-perm : {A B : Type 0} (f : A → B) (xs ys : List A) → Permᴰ xs ys → Permᴰ (map f xs) (map f ys)
map-perm f _ _ Permᴰ.nil = Permᴰ.nil
map-perm f _ _ (Permᴰ.cons {l₁ = xs} {l₂ = ys} e p) = Permᴰ.cons (ap f e) (map-perm f xs ys p)
map-perm f _ _ (Permᴰ.swap e e') = Permᴰ.swap (ap f e) (ap f e')
map-perm f xs zs (Permᴰ.trans {l₂ = ys} p q) = Permᴰ.trans (map-perm f xs ys p) (map-perm f ys zs q)

-- Texts of the same words have one normal form.
normalize_text-same : (s t : Bytes) → fields s ≡ fields t → normalize_text s ≡ normalize_text t
unfolding normalize_text collapse_spaces
normalize_text-same s t e =
    ap (join (32 ∷ [])) (fields-normalize s ∙ (e ∙ sym (fields-normalize t)))

answers_part-perm : (xs ys : List Answer) → Permᴰ xs ys → answers_part xs ≡ answers_part ys
answers_part-perm [] [] p = refl
answers_part-perm [] (y ∷ ys) p = let same = Permᴰ.length-eq p in cc
answers_part-perm (x ∷ xs) [] p = let same = Permᴰ.length-eq p in cc
answers_part-perm (x ∷ xs) (y ∷ ys) p =
    ap (λ ids. (10 ∷ bytes "Answers: ") ++ join (bytes ",") ids)
      (sort-perm lt_bytes (map (λ a. a.id) (x ∷ xs)) (map (λ a. a.id) (y ∷ ys)) lt_bytes-IsLinear
        (map-perm (λ a. a.id) (x ∷ xs) (y ∷ ys) p))

build_messages-same :
    (op : OperationType) (s t : Bytes) (xs ys : List Answer)
    → fields s ≡ fields t
    → is_empty_text s ≡ is_empty_text t
    → Permᴰ xs ys
    → build_messages op s xs ≡ build_messages op t ys
unfolding build_messages
build_messages-same op_generation s t xs ys e k p = rw (k, normalize_text-same s t e) refl
build_messages-same op_scoring s t xs ys e k p =
    rw (normalize_text-same s t e, answers_part-perm xs ys p) refl

module _ (F : Floats) where
  -- An empty system prompt and a blank one are both left out.
  normalize_system-text : (s : Bytes) → normalize_system F s ≡ normalize_text s
  unfolding normalize_text collapse_spaces trim_space trim_left trim_right replace_crlf fields
      fields_from join
  normalize_system-text [] = refl
  normalize_system-text (c ∷ cs) = refl

  normalize_system-same :
      (s t : Bytes) → fields s ≡ fields t → normalize_system F s ≡ normalize_system F t
  normalize_system-same s t e =
      normalize_system-text s ∙ (normalize_text-same s t e ∙ sym (normalize_system-text t))

  -- Requests of one tenant, operation, provider, model, token limit, seed and temperature have one
  -- key, whatever JSON and the hash make of it, if the words of their questions and of their
  -- system prompts are the same, both questions or neither are empty, and their answers differ in
  -- order only: time-outs, traces, metadata and white space in the texts do not count.
  pub generate_idem_key-same :
      (K : Codec F) (q r : Request) (xs ys : List Answer) (temperature : F.Float)
      → q.tenant_id ≡ r.tenant_id
      → q.operation ≡ r.operation
      → q.provider ≡ r.provider
      → q.model ≡ r.model
      → q.max_tokens ≡ r.max_tokens
      → q.seed ≡ r.seed
      → fields q.question ≡ fields r.question
      → is_empty_text q.question ≡ is_empty_text r.question
      → fields q.system_prompt ≡ fields r.system_prompt
      → Permᴰ xs ys
      → generate_idem_key F K (record { request = q; answers = xs; temperature = temperature })
        ≡ generate_idem_key F K (record { request = r; answers = ys; temperature = temperature })
  unfolding generate_idem_key build_canonical_payload
  generate_idem_key-same K q r xs ys temperature tenant op provider model tokens seed words blank
        system p =
      rw
        (
          tenant,
          op,
          provider,
          model,
          tokens,
          seed,
          normalize_system-same q.system_prompt r.system_prompt system,
          build_messages-same r.operation q.question r.question xs ys words blank p,
        )
        refl

  -- The payload that a generation activity builds without the client is the payload that the client
  -- builds for the request, if the request has no seed.
  pub build_canonical_payload_from_generate-same :
      (q : Request) (xs : List Answer) (temperature : F.Float)
      → q.operation ≡ op_generation
      → q.seed ≡ none
      → build_canonical_payload_from_generate F q.tenant_id q.question q.provider q.model
          q.system_prompt q.max_tokens temperature
        ≡ build_canonical_payload F
            (record { request = q; answers = xs; temperature = temperature })
  unfolding build_canonical_payload build_canonical_payload_from_generate build_messages
  build_canonical_payload_from_generate-same q xs temperature op seed = rw (op, seed) refl
