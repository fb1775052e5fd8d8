-- ===== src/Client/Generate.antt =====
-- internal/llm/client_generate.go: `Generate`. The chain below is a parameter, `next`; it answers with
-- a response or an error, since a reply of neither ends the program. The goroutines run in an order
-- that is an argument, each with the stamp of the answer that it makes.
use go_judgy.Prelude.{
  ℕ, zero, suc, Option, none, some, inl, inr, List, [], ◌∷◌, ◌++◌, if◌then◌else◌, ◌==◌,
}
use go_judgy.Prelude.Int.{ℤ, pos, pos_part, leb_ℤ, ◌+ℤ◌, int64, scale}
use go_judgy.Prelude.Bytes.{Bytes, bytes}
use go_judgy.Errors.Types.{Err}
use go_judgy.Errors.Text.{error_text, show_int}
use go_judgy.Floats.{Floats}
use go_judgy.Domain.Answer.{Answer, GenerateAnswersOutput}
use go_judgy.Domain.Evaluation.{EvalConfig}
use go_judgy.Transport.{Response, op_generation}
use go_judgy.Transport.Payload.{FullRequest}
use go_judgy.Transport.Keys.{Codec, Result, generate_idem_key}
use go_judgy.Transport.Conversion.{Stamp, response_to_answer}

-- `ExtractTenantID`, which reads nothing.
abbrev pub extract_tenant_id : Bytes
extract_tenant_id = bytes "default"

-- A goroutine: the index of its answer, and the stamp.
pub record Call : Type 0 where
  pub index : ℕ
  pub stamp : Stamp

-- The value that a goroutine puts into `results`.
abbrev pub Outcome : Type 0
Outcome = Result (Answer × ℤ)

-- `results[index]`; `none` is the zero value.
unfoldable pub outcome_at : ℕ → List (ℕ × Outcome) → Option Outcome
outcome_at index [] = none
outcome_at index ((i, r) ∷ results) = if i == index then some r else outcome_at index results

-- The variables of the loop over the results.
pub record Totals : Type 0 where
  pub answers : List Answer
  pub tokens : ℤ
  pub calls : ℤ
  pub first_error : Option Bytes

abbrev pub start : Totals
start = record { answers = []; tokens = pos 0; calls = pos 0; first_error = none }

abbrev failed_answer : ℕ → Err → Bytes
failed_answer i e =
    bytes "failed to generate answer " ++ (show_int (pos (suc i)) ++ (bytes ": " ++ error_text e))

abbrev keep_first : Option Bytes → Bytes → Option Bytes
keep_first (some t) t' = some t
keep_first none t' = some t'

-- One round of that loop; an error after the first leaves no trace.
unfoldable pub add_outcome : ℕ → Option Outcome → Totals → Totals
add_outcome i none t = t
add_outcome i (some (inl e)) t = record t {
  first_error = keep_first t.first_error (failed_answer i e);
}
add_outcome i (some (inr (a, tokens))) t = record t {
  answers = t.answers ++ a ∷ [];
  tokens = int64 (t.tokens +ℤ tokens);
  calls = int64 (t.calls +ℤ pos 1);
}

unfoldable pub add_outcomes : ℕ → ℕ → List (ℕ × Outcome) → Totals → Totals
unfolding outcome_at add_outcome
add_outcomes zero i results t = t
add_outcomes (suc n) i results t =
    add_outcomes n (suc i) results (add_outcome i (outcome_at i results) t)

abbrev pub final_error : Option Bytes → List Answer → Bytes
final_error (some t) answers = t
final_error none [] = bytes "no answers generated"
final_error none (a ∷ answers) = []

unfoldable pub output_of : Bytes → Totals → GenerateAnswersOutput
output_of key t = record {
  answers = t.answers;
  tokens_used = t.tokens;
  calls_made = t.calls;
  cost_cents = pos 0;
  client_idem_key = key;
  error = final_error t.first_error t.answers;
}

-- The output of an early return.
abbrev failed_output : Bytes → Bytes → GenerateAnswersOutput
failed_output key message = record {
  answers = [];
  tokens_used = pos 0;
  calls_made = pos 0;
  cost_cents = pos 0;
  client_idem_key = key;
  error = message;
}

module _ (F : Floats) where
  open F use {Float}

  pub record GenerateAnswersInput : Type 0 where
    pub question : Bytes
    pub num_answers : ℤ
    pub config : EvalConfig F

  -- The request of every call; without a trace, a timeout and a key, the canonical request.
  abbrev request_of : GenerateAnswersInput → ℤ → Bytes → Bytes → FullRequest F
  request_of input timeout trace_id key = record {
    request = record {
      operation = op_generation;
      provider = input.config.provider;
      model = input.config.model;
      tenant_id = extract_tenant_id;
      question = input.question;
      max_tokens = input.config.max_answer_tokens;
      seed = none;
      system_prompt = [];
      timeout = timeout;
      idempotency_key = key;
      trace_id = trace_id;
      metadata = [];
    };
    answers = [];
    temperature = input.config.temperature;
  }

  unfoldable pub canonical_request : GenerateAnswersInput → FullRequest F
  canonical_request input = request_of input (pos 0) [] []

  -- `baseRequest` with the key of a goroutine.
  unfoldable pub call_request : GenerateAnswersInput → Bytes → Bytes → ℕ → FullRequest F
  call_request input trace_id key i =
      request_of input (int64 (scale 1000000000 input.config.timeout)) trace_id
        (key ++ (bytes ":answer:" ++ show_int (pos i)))

  module _ {W : Type 0} (K : Codec F) (next : FullRequest F → W → W × Result Response) where
    abbrev pub outcome_of : Call → FullRequest F → Result Response → Outcome
    outcome_of c req (inl e) = inl e
    outcome_of c req (inr resp) =
        inr (response_to_answer c.stamp resp req.request, resp.usage.total_tokens)

    -- The goroutines, in the order in which they call the chain.
    unfoldable pub run_calls :
        GenerateAnswersInput
        → Bytes
        → Bytes
        → List Call
        → List (ℕ × Outcome)
        → W
        → W × List (ℕ × Outcome)
    unfolding call_request
    run_calls input trace_id key [] results w = (w, results)
    run_calls input trace_id key (c ∷ calls) results w =
        let req = call_request input trace_id key c.index in
        let (w', reply) = next req w in
        run_calls input trace_id key calls ((c.index, outcome_of c req reply) ∷ results) w'

    abbrev pub with_key :
        GenerateAnswersInput → Bytes → List Call → W → Result Bytes → W × GenerateAnswersOutput
    with_key input trace_id calls w (inl e) = (
      w,
      failed_output [] (bytes "failed to generate canonical idempotency key: " ++ error_text e),
    )
    with_key input trace_id calls w (inr key) =
        if leb_ℤ input.num_answers (pos 0)
        then (w, failed_output key (bytes "no answers requested"))
        else (let (w', results) = run_calls input trace_id key calls [] w in
            (w', output_of key (add_outcomes (pos_part input.num_answers) 0 results start)))

    -- `Generate`, whose error is always nil.
    unfoldable pub generate :
        GenerateAnswersInput → Bytes → List Call → W → W × GenerateAnswersOutput
    unfolding run_calls add_outcomes output_of canonical_request generate_idem_key
    generate input trace_id calls w =
        with_key input trace_id calls w (generate_idem_key F K (canonical_request input))
