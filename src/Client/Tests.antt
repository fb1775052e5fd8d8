-- ===== src/Client/Tests.antt =====
-- internal/llm: the theorem on `Generate` at an input that meets its hypotheses.
use go_judgy.Prelude.{
  ℕ, zero, suc, ◌<◌, ◌≡◌, refl, true, ◌↔◌, inl, inr, List, [], ◌∷◌, length, arith,
}
use go_judgy.Prelude.Int.{pos}
use go_judgy.Prelude.Bytes.{Bytes, bytes, is_empty_text}
use go_judgy.Errors.Types.{plain_error}
use go_judgy.Floats.Whole.{whole}
use go_judgy.Domain.Evaluation.{default_eval_config}
use go_judgy.Transport.{Response}
use go_judgy.Transport.Payload.{FullRequest}
use go_judgy.Transport.Keys.{Json, Codec, Result, generate_idem_key}
use go_judgy.Client.Generate.{Call, GenerateAnswersInput, canonical_request, generate}
use go_judgy.Client.Accounts.{called, generate-accounts}

-- A JSON without contents, and no hash.
abbrev codec : Codec whole
codec = record {
  marshal_payload = λ p. inr p.model;
  unmarshal = λ t. inr (Json.primitive t);
  marshal = λ j. inr [];
  sha256_hex = λ t. t;
}

abbrev input : GenerateAnswersInput whole
input = record { question = bytes "why?"; num_answers = pos 2; config = default_eval_config whole }

abbrev answered : Response
answered = record {
  content = bytes "because";
  finish_reason = bytes "stop";
  provider_request_ids = [];
  usage = record {
    prompt_tokens = pos 3;
    completion_tokens = pos 1;
    total_tokens = pos 4;
    latency_ms = pos 2;
  };
  estimated_cost_milli_cents = pos 0;
  headers = [];
  raw_body = [];
}

-- A chain that answers the first call and fails the others.
abbrev next : FullRequest whole → ℕ → ℕ × Result Response
next req zero = (1, inr answered)
next req (suc n) = (suc (suc n), inl (plain_error (bytes "down")))

abbrev calls : List Call
calls =
    record { index = 1; stamp = record { id = bytes "b"; now = pos 5; month = bytes "2025/01" } }
    ∷ record { index = 0; stamp = record { id = bytes "a"; now = pos 5; month = bytes "2025/01" } }
    ∷ []

all_called : (i : ℕ) → i < 2 → called i calls ≡ true
all_called i h = ground arith

abbrev key_text : Result Bytes
key_text = generate_idem_key whole codec (canonical_request whole input)

generate-accounts_example :
    let out = (generate whole codec next input [] calls 0).1 in
    (out.calls_made ≡ pos (length out.answers))
    × ((is_empty_text out.error ≡ true) ↔ (length out.answers ≡ 2))
unfolding generate_idem_key canonical_request
generate-accounts_example =
    generate-accounts whole codec next input [] _ calls 0 1 refl refl (omega arith) all_called
