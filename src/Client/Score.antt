-- ===== src/Client/Score.antt =====
-- internal/llm/client_score.go: `Score`. The chain below is a parameter.
use go_judgy.Prelude.{ℕ, suc, Option, none, inl, inr, List, [], ◌∷◌, ◌++◌}
use go_judgy.Prelude.Int.{ℤ, pos, ◌+ℤ◌, int64, scale}
use go_judgy.Prelude.Bytes.{Bytes, bytes}
use go_judgy.Floats.{Floats}
use go_judgy.Domain.Score as S
use go_judgy.Domain.Judgement.{JudgeScore}
use go_judgy.Domain.Answer.{Answer}
use go_judgy.Domain.Evaluation.{EvalConfig}
use go_judgy.Transport.{Request, Response, op_scoring}
use go_judgy.Transport.Payload.{FullRequest}
use go_judgy.Transport.Keys.{Codec, Result, generate_idem_key}
use go_judgy.Transport.Conversion.{create_invalid_score}
use go_judgy.Client.Generate.{extract_tenant_id}
use go_judgy.Client.Validated.{
  wrap_text, RepairPolicy, ScoreValidator, Stamps, Judging, invalid, process_score_with_validator,
}

module _ (F : Floats) where
  open F use {Float, hundredths}

  pub record ScoreAnswersInput : Type 0 where
    pub question : Bytes
    pub answers : List Answer
    pub config : EvalConfig F
    pub validator : Option ScoreValidator
    pub repair_policy : Option RepairPolicy

  pub record ScoreAnswersOutput : Type 0 where
    pub scores : List (JudgeScore F)
    pub tokens_used : ℤ
    pub calls_made : ℤ
    pub cost_cents : ℤ
    pub error : Bytes

  abbrev S_answer : Answer → S.Answer
  S_answer a = record { id = a.id }

  unfoldable pub score_request : ScoreAnswersInput → Answer → Bytes → Bytes → FullRequest F
  score_request input answer trace_id key = record {
    request = record {
      operation = op_scoring;
      provider = input.config.provider;
      model = input.config.model;
      tenant_id = extract_tenant_id;
      question = input.question;
      max_tokens = pos 1000;
      seed = none;
      system_prompt = [];
      timeout = int64 (scale 1000000000 input.config.timeout);
      idempotency_key = key;
      trace_id = trace_id;
      metadata = [];
    };
    answers = S_answer answer ∷ [];
    temperature = hundredths 10;
  }

  module _ (J : Judging F) where
    module _ {W : Type 0} (K : Codec F) (next : FullRequest F → W → W × Result Response) where
      abbrev with_score : JudgeScore F → ScoreAnswersOutput → ScoreAnswersOutput
      with_score s out = record out { scores = out.scores ++ s ∷ [] }

      abbrev after_reply :
          ScoreAnswersInput
          → Stamps
          → Answer
          → Request
          → ScoreAnswersOutput
          → W × Result Response
          → W × ScoreAnswersOutput
      after_reply input t answer req out (w, inl e) =
          (w, with_score (invalid F J t.first answer.id e) out)
      after_reply input t answer req out (w, inr resp) = (
        w,
        record (with_score
            (process_score_with_validator F J t resp answer.id req input.validator
              input.repair_policy)
            out) {
              tokens_used = int64 (out.tokens_used +ℤ resp.usage.total_tokens);
              calls_made = int64 (out.calls_made +ℤ pos 1);
            },
      )

      abbrev after_key :
          ScoreAnswersInput
          → Stamps
          → Answer
          → ScoreAnswersOutput
          → W
          → Result Bytes
          → W × ScoreAnswersOutput
      after_key input t answer out w (inl e) = (
        w,
        with_score
            (invalid F J t.first answer.id
              (wrap_text (bytes "failed to generate idempotency key: ") e))
            out,
      )
      after_key input t answer out w (inr key) =
          let req = score_request input answer t.trace_id key in
          after_reply input t answer req.request out (next req w)

      -- One round of the loop over the answers.
      unfoldable pub score_one :
          ScoreAnswersInput → Stamps → Answer → ScoreAnswersOutput → W → W × ScoreAnswersOutput
      unfolding generate_idem_key score_request create_invalid_score process_score_with_validator
      score_one input t answer out w =
          after_key input t answer out w
            (generate_idem_key F K (score_request input answer t.trace_id []))

      unfoldable pub score_from :
          ScoreAnswersInput
          → (ℕ → Stamps)
          → ℕ
          → List Answer
          → ScoreAnswersOutput
          → W
          → W × ScoreAnswersOutput
      unfolding score_one
      score_from input stamps i [] out w = (w, out)
      score_from input stamps i (a ∷ answers) out w =
          let (w', out') = score_one input (stamps i) a out w in
          score_from input stamps (suc i) answers out' w'

      -- `Score`, whose error is always nil; each answer has its stamps.
      unfoldable pub score : ScoreAnswersInput → (ℕ → Stamps) → W → W × ScoreAnswersOutput
      unfolding score_from
      score input stamps w =
          score_from input stamps 0 input.answers
            (record {
              scores = [];
              tokens_used = pos 0;
              calls_made = pos 0;
              cost_cents = pos 0;
              error = [];
            })
            w
