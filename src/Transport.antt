-- ===== src/Transport.antt =====
-- internal/llm/transport/request.go and handler.go: requests, responses, and handlers that a
-- middleware wraps. Of `Request` the artifact store is left out, and the answers and the
-- temperature stand beside it in Transport/Payload: no middleware modelled here reads them.
pub mod Words
pub mod WordsLaws
pub mod Payload
pub mod Keys
pub mod PayloadLaws
pub mod Conversion
mod Tests
use go_judgy.Prelude.{Option, List, [], ◌∷◌, Bool, true, false}
use go_judgy.Prelude.Int.{ℤ}
use go_judgy.Prelude.Bytes.{Bytes, bytes, beq}
use go_judgy.Errors.Types.{Err}

pub data OperationType : Type 0 where
  op_generation op_scoring : OperationType

abbrev pub operation_text : OperationType → Bytes
operation_text op_generation = bytes "generation"
operation_text op_scoring = bytes "scoring"

pub record Request : Type 0 where
  pub operation : OperationType
  pub provider : Bytes
  pub model : Bytes
  pub tenant_id : Bytes
  pub question : Bytes
  pub max_tokens : ℤ
  pub seed : Option ℤ
  pub system_prompt : Bytes
  pub timeout : ℤ
  pub idempotency_key : Bytes
  pub trace_id : Bytes
  pub metadata : List (Bytes × Bytes)

pub record NormalizedUsage : Type 0 where
  pub prompt_tokens : ℤ
  pub completion_tokens : ℤ
  pub total_tokens : ℤ
  pub latency_ms : ℤ

pub record Response : Type 0 where
  pub content : Bytes
  pub finish_reason : Bytes
  pub provider_request_ids : List Bytes
  pub usage : NormalizedUsage
  pub estimated_cost_milli_cents : ℤ
  pub headers : List (Bytes × List Bytes)
  pub raw_body : Bytes

-- A key of `context.WithValue`: keys of different Go types are different, whatever they print as.
pub data ContextKey : Type 0 where
  half_open_probe_key : ContextKey
  string_key : Bytes → ContextKey

abbrev pub same_key : ContextKey → ContextKey → Bool
same_key half_open_probe_key half_open_probe_key = true
same_key (string_key a) (string_key b) = beq a b
same_key _ _ = false

-- The values that a context carries are only tested for being there.
abbrev pub Context : Type 0
Context = List ContextKey

-- `ctx.Value(key) != nil`.
abbrev pub has_value : ContextKey → Context → Bool
has_value key [] = false
has_value key (k ∷ ctx) = elim (same_key k key) [ true ↦ true | false ↦ has_value key ctx ]

-- Go's `(*Response, error)`: either may be nil.
abbrev pub Reply : Type 0
Reply = Option Response × Option Err

-- A handler changes a world W: what the middleware below it and the provider keep.
abbrev pub Handler : Type 0 → Type 0
Handler W = Context → Request → W → W × Reply
