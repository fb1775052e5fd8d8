-- ===== src/Providers/Router.antt =====
-- internal/llm/providers/router.go, the finish reasons of the adapters, and
-- internal/llm/transport/handler.go: the chain and the core handler. What an adapter builds and parses
-- and what the HTTP client answers are parameters.
use go_judgy.Prelude.{Option, none, some, inl, inr, List, [], ◌∷◌, ◌++◌, if◌then◌else◌}
use go_judgy.Prelude.Int.{ℤ, pos, div_trunc, int64, ◌+ℤ◌}
use go_judgy.Prelude.Bytes.{Bytes, bytes, beq, lookup, insert, is_empty_text}
use go_judgy.Errors.Types.{Err, wrapped, plain_error}
use go_judgy.Business.Validation.{
  ResponseError, nil_response, empty_response_content, negative_token_count, empty_generation,
  validate_provider_response, validate_generation_response,
}
use go_judgy.Errors.Types.{validation_error}
use go_judgy.Transport.{OperationType, op_generation, op_scoring, Request, Response, Handler}
use go_judgy.Transport.Keys.{Result, then_try, wrap_error}

-- `Chain`: the first middleware is the outermost.
unfoldable pub chain : {W : Type 0} → Handler W → List (Handler W → Handler W) → Handler W
chain h [] = h
chain h (m ∷ ms) = m (chain h ms)

pub data AdapterKind : Type 0 where
  openai anthropic google : AdapterKind

-- The switch of `NewRouter` on a name.
abbrev adapter_of : Bytes → Option AdapterKind
adapter_of name =
    if beq name (bytes "openai")
    then some openai
    else if beq name (bytes "anthropic")
    then some anthropic
    else if beq name (bytes "google")
    then some google
    else none

abbrev pub unknown_provider : Bytes → Err
unknown_provider name =
    let e = plain_error (bytes "unknown provider") in wrapped (bytes "unknown provider: " ++ name) e

abbrev pub Adapters : Type 0
Adapters = List (Bytes × AdapterKind)

abbrev add_adapter : Bytes → Option AdapterKind → Adapters → Result Adapters
add_adapter name none adapters = inl (unknown_provider name)
add_adapter name (some a) adapters = inr (insert name a adapters)

-- `NewRouter` over the configured names, in the order in which the map is visited.
unfoldable new_router : List Bytes → Adapters → Result Adapters
new_router [] adapters = inr adapters
new_router (name ∷ names) adapters =
    then_try (add_adapter name (adapter_of name) adapters) (λ more. new_router names more)

abbrev picked : Bytes → Option AdapterKind → Result AdapterKind
picked provider none = inl (unknown_provider provider)
picked provider (some a) = inr a

-- `Pick`.
unfoldable pub pick : Adapters → Bytes → Result AdapterKind
pick adapters provider = picked provider (lookup provider adapters)

unfoldable map_openai_finish_reason : Bytes → Bytes
map_openai_finish_reason reason =
    if beq reason (bytes "length")
    then bytes "length"
    else if beq reason (bytes "content_filter")
    then bytes "content_filter"
    else if beq reason (bytes "tool_calls")
    then bytes "tool_use"
    else if beq reason (bytes "function_call")
    then bytes "tool_use"
    else bytes "stop"

unfoldable map_anthropic_stop_reason : Bytes → Bytes
map_anthropic_stop_reason reason =
    if beq reason (bytes "max_tokens")
    then bytes "length"
    else if beq reason (bytes "content_filter")
    then bytes "content_filter"
    else if beq reason (bytes "tool_use")
    then bytes "tool_use"
    else bytes "stop"

-- Of a reason in upper case.
unfoldable map_google_finish_reason : Bytes → Bytes
map_google_finish_reason reason =
    if beq reason (bytes "MAX_TOKENS")
    then bytes "length"
    else if beq reason (bytes "SAFETY")
    then bytes "content_filter"
    else if beq reason (bytes "BLOCKLIST")
    then bytes "content_filter"
    else bytes "stop"

-- What the body of a success decodes to: the texts of the choices with their reasons, and tokens.
pub record Decoded : Type 0 where
  pub choices : List (Bytes × Bytes)
  pub prompt_tokens : ℤ
  pub completion_tokens : ℤ
  pub total_tokens : ℤ

abbrev first_content : List (Bytes × Bytes) → Bytes
first_content [] = []
first_content ((content, _) ∷ _) = content

abbrev first_reason : (Bytes → Bytes) → List (Bytes × Bytes) → Bytes
first_reason mapped [] = []
first_reason mapped ((_, reason) ∷ _) = mapped reason

abbrev request_ids : Bytes → List Bytes
request_ids [] = []
request_ids (c ∷ cs) = (c ∷ cs) ∷ []

-- The response of the OpenAI adapter to a body that decodes, with the header of the request's
-- identifier.
unfoldable openai_response : Decoded → Bytes → List (Bytes × List Bytes) → Bytes → Response
unfolding map_openai_finish_reason
openai_response d request_id headers body = record {
  content = first_content d.choices;
  finish_reason = first_reason map_openai_finish_reason d.choices;
  provider_request_ids = request_ids request_id;
  usage = record {
    prompt_tokens = d.prompt_tokens;
    completion_tokens = d.completion_tokens;
    total_tokens = d.total_tokens;
    latency_ms = pos 0;
  };
  estimated_cost_milli_cents = pos 0;
  headers = headers;
  raw_body = body;
}

-- Of the Google adapter, for a candidate with parts; the header has two names.
unfoldable google_response : Decoded → Bytes → Bytes → List (Bytes × List Bytes) → Bytes → Response
unfolding map_google_finish_reason
google_response d goog_id request_id headers body = record {
  content = first_content d.choices;
  finish_reason = first_reason map_google_finish_reason d.choices;
  provider_request_ids =
      if is_empty_text goog_id then request_ids request_id else request_ids goog_id;
  usage = record {
    prompt_tokens = d.prompt_tokens;
    completion_tokens = d.completion_tokens;
    total_tokens = d.total_tokens;
    latency_ms = pos 0;
  };
  estimated_cost_milli_cents = pos 0;
  headers = headers;
  raw_body = body;
}

-- Of the Anthropic adapter; its stop reason stands beside the contents, and its total is the sum.
unfoldable anthropic_response :
    Decoded → Bytes → Bytes → List (Bytes × List Bytes) → Bytes → Response
unfolding map_anthropic_stop_reason
anthropic_response d stop_reason request_id headers body = record {
  content = first_content d.choices;
  finish_reason = map_anthropic_stop_reason stop_reason;
  provider_request_ids = request_ids request_id;
  usage = record {
    prompt_tokens = d.prompt_tokens;
    completion_tokens = d.completion_tokens;
    total_tokens = int64 (d.prompt_tokens +ℤ d.completion_tokens);
    latency_ms = pos 0;
  };
  estimated_cost_milli_cents = pos 0;
  headers = headers;
  raw_body = body;
}

abbrev response_error : ResponseError → Err
response_error nil_response = plain_error (bytes "nil response")
response_error empty_response_content = plain_error (bytes "empty response content")
response_error negative_token_count = plain_error (bytes "negative token count")
response_error empty_generation =
    validation_error (record { field = []; message = bytes "empty generation response" })

abbrev pub checked : Bytes → Option ResponseError → Response → Result Response
checked message none resp = inr resp
checked message (some e) resp = wrap_error message (inl (response_error e))

abbrev pub check_generation : OperationType → Response → Result Response
check_generation op_generation resp =
    checked (bytes "invalid generation response: ") (validate_generation_response resp.content) resp
check_generation op_scoring resp = inr resp

-- A parsed response with its latency, validated.
abbrev pub validated : OperationType → ℤ → Response → Result Response
validated operation latency resp =
    let timed = record resp {
      usage = record resp.usage { latency_ms = div_trunc latency 1000000 };
    } in
    then_try
      (checked (bytes "invalid provider response: ") (validate_provider_response (some timed))
        timed)
      (λ fine. check_generation operation fine)

-- What the core handler uses: the requests that adapters build, the HTTP client with the time that a
-- call takes in nanoseconds, and what adapters parse.
pub record Http (W : Type 0) : Type 1 where
  pub HttpRequest : Type 0
  pub HttpResponse : Type 0
  pub build : AdapterKind → Request → Result HttpRequest
  pub call : HttpRequest → W → W × ℤ × Result HttpResponse
  pub parse : AdapterKind → HttpResponse → Result Response

module _ {W : Type 0} (H : Http W) (adapters : Adapters) where
  open H use {HttpRequest, HttpResponse, build, call, parse}

  abbrev pub after_call :
      AdapterKind → OperationType → W × ℤ × Result HttpResponse → W × Result Response
  after_call a operation (w, latency, answer) = (
    w,
    then_try (wrap_error (bytes "HTTP request failed: ") answer) (λ r.
        then_try (wrap_error (bytes "failed to parse response: ") (parse a r))
          (λ resp. validated operation latency resp)),
  )

  abbrev after_build : AdapterKind → OperationType → Result HttpRequest → W → W × Result Response
  after_build a operation (inl e) w = (w, wrap_error (bytes "failed to build request: ") (inl e))
  after_build a operation (inr http) w = after_call a operation (call http w)

  abbrev after_pick : Request → Result AdapterKind → W → W × Result Response
  after_pick req (inl e) w = (w, wrap_error (bytes "failed to select provider: ") (inl e))
  after_pick req (inr a) w = after_build a req.operation (build a req) w

  -- `(*httpHandler).Handle`.
  unfoldable pub http_handle : Request → W → W × Result Response
  unfolding pick validate_provider_response validate_generation_response
  http_handle req w = after_pick req (pick adapters req.provider) w
