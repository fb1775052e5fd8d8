-- ===== src/Client/Judged.antt =====
-- What `Score` answers: a score for each answer, and the calls that it counts.
use go_judgy.Prelude.{
  ℕ, suc, Bool, Option, none, some, inl, inr, List, [], ◌∷◌, ◌++◌, map, ◌≡◌, refl, ap, sym, ◌∙◌,
  arith,
}
use go_judgy.Prelude.Int.{pos}
use go_judgy.Prelude.Bytes.{Bytes}
use go_judgy.Floats.{Floats}
use go_judgy.Domain.Judgement.{JudgeScore, set_score_values, make_score}
use go_judgy.Domain.Answer.{Answer}
use go_judgy.Transport.{Request, Response}
use go_judgy.Transport.Payload.{FullRequest}
use go_judgy.Transport.Keys.{Codec, Result, Result-cases, generate_idem_key}
use go_judgy.Transport.Conversion.{ScoreData, create_invalid_score}
use mathlib.Core.List.{map-append, append-nil, append_assoc}
use go_judgy.Client.Validated.{
  RepairPolicy, ScoreValidator, Stamps, Judging, score_of_data, create_score_with_domain_validator,
  create_score_with_business_validator, process_score_with_validator,
}
use go_judgy.Client.Score.{
  ScoreAnswersInput, ScoreAnswersOutput, score_request, score_one, score_from, score,
}

module _ (F : Floats) (J : Judging F) where
  score_of_data-answer_id :
      (t : Stamps) (resp : Response) (answer_id : Bytes) (req : Request) (d : ScoreData F)
      → (score_of_data F J t resp answer_id req d).answer_id ≡ answer_id
  unfolding score_of_data make_score create_invalid_score set_score_values
  score_of_data-answer_id t resp answer_id req d = ground arith

  domain-answer_id :
      (t : Stamps) (resp : Response) (answer_id : Bytes) (req : Request) (content : Bytes)
      (v : ScoreValidator)
      → (create_score_with_domain_validator F J t resp answer_id req content v).answer_id
        ≡ answer_id
  unfolding create_score_with_domain_validator create_invalid_score
  domain-answer_id t resp answer_id req content v = elim (Result-cases (v content)) [
    | inl (e, failed) ↦ rw failed refl
    | inr (p, ok) ↦ elim (Result-cases (J.decode p.0)) [
      | inl (e, failed) ↦ rw (ok, failed) refl
      | inr (d, decoded) ↦ rw (ok, decoded) (score_of_data-answer_id t resp answer_id req d)
    ]
  ]

  business-answer_id :
      (t : Stamps) (resp : Response) (answer_id : Bytes) (req : Request) (content : Bytes)
      (enable : Bool)
      → (create_score_with_business_validator F J t resp answer_id req content enable).answer_id
        ≡ answer_id
  unfolding create_score_with_business_validator create_invalid_score
  business-answer_id t resp answer_id req content enable =
      elim (Result-cases (J.validate_and_repair content enable)) [
        | inl (e, failed) ↦ rw failed refl
        | inr (d, ok) ↦ rw ok (score_of_data-answer_id t resp answer_id req d)
      ]

  process-answer_id :
      (t : Stamps) (resp : Response) (answer_id : Bytes) (req : Request)
      (validator : Option ScoreValidator) (policy : Option RepairPolicy)
      → (process_score_with_validator F J t resp answer_id req validator policy).answer_id
        ≡ answer_id
  unfolding process_score_with_validator
  process-answer_id t resp answer_id req none policy = business-answer_id t resp answer_id req _ _
  process-answer_id t resp answer_id req (some v) policy = domain-answer_id t resp answer_id req _ v

  module _ {W : Type 0} (K : Codec F) (next : FullRequest F → W → W × Result Response) where
    abbrev ids : List (JudgeScore F) → List Bytes
    ids scores = map (λ s. s.answer_id) scores

    -- A round adds a score of its answer, and counts at most one call.
    score_one-adds :
        (input : ScoreAnswersInput F) (t : Stamps) (a : Answer) (out : ScoreAnswersOutput F) (w : W)
        → ids (score_one F J K next input t a out w).1.scores ≡ ids out.scores ++ a.id ∷ []
    unfolding score_one create_invalid_score
    score_one-adds input t a out w =
        elim (Result-cases (generate_idem_key F K (score_request F input a t.trace_id []))) [
          | inl (e, failed) ↦ rw (failed, map-append) refl
          | inr (key, ok) ↦
              let req = score_request F input a t.trace_id key in
              elim (Result-cases (next req w).1) [
                | inl (e, failed) ↦ rw (ok, failed, map-append) refl
                | inr (resp, replied) ↦
                    rw (ok, replied, map-append)
                      (ap (λ i. ids out.scores ++ i ∷ [])
                        (process-answer_id t resp a.id req.request input.validator
                          input.repair_policy))
              ]
        ]

    score_from-ids :
        (input : ScoreAnswersInput F) (stamps : ℕ → Stamps) (i : ℕ) (answers : List Answer)
        (out : ScoreAnswersOutput F) (w : W)
        → ids (score_from F J K next input stamps i answers out w).1.scores
          ≡ ids out.scores ++ map (λ a. a.id) answers
    unfolding score_from
    score_from-ids input stamps i [] out w = sym (append-nil (ids out.scores))
    score_from-ids input stamps i (a ∷ answers) out w =
        let next_state = score_one F J K next input (stamps i) a out w in
        score_from-ids input stamps (suc i) answers next_state.1 next_state.0
        ∙ ap (λ l. l ++ map (λ a. a.id) answers) (score_one-adds input (stamps i) a out w)
        ∙ append_assoc (ids out.scores) (a.id ∷ []) (map (λ a. a.id) answers)

    -- `Score` answers with one score for each answer, in the order of the answers, whatever the chain,
    -- the validators and the decoding do.
    pub score-ids :
        (input : ScoreAnswersInput F) (stamps : ℕ → Stamps) (w : W)
        → map (λ s. s.answer_id) (score F J K next input stamps w).1.scores
          ≡ map (λ a. a.id) input.answers
    unfolding score
    score-ids input stamps w =
        score_from-ids input stamps 0 input.answers
          (record {
            scores = [];
            tokens_used = pos 0;
            calls_made = pos 0;
            cost_cents = pos 0;
            error = [];
          })
          w
