-- ===== src/Providers/Tests.antt =====
-- internal/llm/providers: the theorem at an input that meets its hypotheses.
use go_judgy.Prelude.{◌≡◌, refl, false, none, inr, [], ◌∷◌}
use go_judgy.Prelude.Int.{pos, ltb_ℤ, div_trunc}
use go_judgy.Prelude.Bytes.{bytes, is_empty_text}
use go_judgy.Transport.{op_generation, Request, Response}
use go_judgy.Transport.Words.{trim_space, trim_left, trim_right, is_space}
use go_judgy.Providers.Router.{AdapterKind, Adapters, Http, http_handle, pick}
use go_judgy.Providers.Answers.{http_handle-Spoken}

abbrev said : Response
said = record {
  content = bytes " yes";
  finish_reason = bytes "stop";
  provider_request_ids = [];
  usage = record {
    prompt_tokens = pos 3;
    completion_tokens = pos 1;
    total_tokens = pos 4;
    latency_ms = pos 0;
  };
  estimated_cost_milli_cents = pos 0;
  headers = [];
  raw_body = [];
}

-- A server that gives one response to every request, after two milliseconds.
abbrev server : Http Request
server = record {
  HttpRequest = Request;
  HttpResponse = Response;
  build = λ a r. inr r;
  call = λ r w. (r, pos 2000000, inr said);
  parse = λ a r. inr r;
}

abbrev adapters : Adapters
adapters = (bytes "openai", AdapterKind.openai) ∷ []

abbrev asked : Request
asked = record {
  operation = op_generation;
  provider = bytes "openai";
  model = bytes "gpt-4";
  tenant_id = bytes "t";
  question = bytes "why?";
  max_tokens = pos 10;
  seed = none;
  system_prompt = [];
  timeout = pos 0;
  idempotency_key = [];
  trace_id = [];
  metadata = [];
}

http_handle-Spoken_example :
    (is_empty_text (trim_space (bytes " yes")) ≡ false) × (ltb_ℤ (pos 4) (pos 0) ≡ false)
unfolding http_handle pick trim_space trim_left trim_right is_space div_trunc
http_handle-Spoken_example =
    http_handle-Spoken server adapters asked asked
      (record said { usage = record said.usage { latency_ms = pos 2 } }) refl refl
