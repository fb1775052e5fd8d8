-- ===== src/Providers/Answers.antt =====
-- What the core handler answers.
use go_judgy.Prelude.{false, Option, none, some, inl, inr, ◌≡◌, refl, subst, arith}
use go_judgy.Prelude.Int.{ℤ, pos, ltb_ℤ, div_trunc}
use go_judgy.Prelude.Bytes.{Bytes, bytes, is_empty_text}
use go_judgy.Business.Validation.{
  ResponseError, validate_provider_response, validate_generation_response,
}
use go_judgy.Transport.{op_generation, Request, Response}
use go_judgy.Transport.Words.{trim_space}
use go_judgy.Transport.Keys.{Result, Result-cases, wrap_error, then_try-ok}
use go_judgy.Providers.Router.{
  AdapterKind, Adapters, Http, pick, checked, check_generation, validated, after_call, http_handle,
}

checked-ok :
    (message : Bytes) (o : Option ResponseError) (resp r : Response)
    → checked message o resp ≡ inr r
    → (o ≡ none) × (resp ≡ r)
checked-ok message none resp r h = (refl, cc)
checked-ok message (some e) resp r h = cc

-- What a response to a generation has.
abbrev Spoken : Response → Type 0
Spoken r =
    (is_empty_text (trim_space r.content) ≡ false) × (ltb_ℤ r.usage.total_tokens (pos 0) ≡ false)

generation-Spoken :
    (r : Response)
    → validate_provider_response (some r) ≡ none
    → validate_generation_response r.content ≡ none
    → Spoken r
unfolding validate_provider_response validate_generation_response
generation-Spoken r h g = ground arith

validated-Spoken :
    (latency : ℤ) (resp r : Response) → validated op_generation latency resp ≡ inr r → Spoken r
validated-Spoken latency resp r h =
    let timed = record resp {
      usage = record resp.usage { latency_ms = div_trunc latency 1000000 };
    } in
    let (fine, first, second) =
      then_try-ok
        (checked (bytes "invalid provider response: ") (validate_provider_response (some timed))
          timed)
        (λ (x : Response). check_generation op_generation x) h in
    let (well, same) =
      checked-ok (bytes "invalid provider response: ") (validate_provider_response (some timed))
        timed fine first in
    let (spoken, same') =
      checked-ok (bytes "invalid generation response: ") (validate_generation_response fine.content)
        fine r second in
    subst Spoken same' (
      generation-Spoken fine (subst (λ x. validate_provider_response (some x) ≡ none) same well)
        spoken)

module _ {W : Type 0} (H : Http W) (adapters : Adapters) where
  after_call-Spoken :
      (a : AdapterKind) (answer : W × ℤ × Result H.HttpResponse) (r : Response)
      → (after_call H adapters a op_generation answer).1 ≡ inr r
      → Spoken r
  after_call-Spoken a (w, latency, reply) r h =
      let (raw, sent, rest) = then_try-ok (wrap_error (bytes "HTTP request failed: ") reply) _ h in
      let (resp, parsed, last) =
        then_try-ok (wrap_error (bytes "failed to parse response: ") (H.parse a raw)) _ rest in
      validated-Spoken latency resp r last

  -- A response that the core handler gives to a generation, whatever the provider answered, has a
  -- content that is not blank and a count of tokens that is not negative.
  pub http_handle-Spoken :
      (req : Request) (w : W) (r : Response)
      → req.operation ≡ op_generation
      → (http_handle H adapters req w).1 ≡ inr r
      → (is_empty_text (trim_space r.content) ≡ false)
        × (ltb_ℤ r.usage.total_tokens (pos 0) ≡ false)
  unfolding http_handle
  http_handle-Spoken req w r generation h = elim (Result-cases (pick adapters req.provider)) [
    | inl (e, failed) ↦ cc (rw failed at h)
    | inr (a, picked) ↦ elim (Result-cases (H.build a req)) [
      | inl (e, failed) ↦ cc (rw (picked, failed) at h)
      | inr (http, built) ↦
          after_call-Spoken a (H.call http w) r (rw (picked, built, generation) at h)
    ]
  ]
