-- ===== src/Transport/Payload.antt =====
-- internal/llm/transport/idempotency.go: canonical payloads and the keys made of them. JSON and
-- SHA-256 are parameters. Tools and extensions, which nothing sets, are left out.
use go_judgy.Prelude.{Option, none, some, List, [], ◌∷◌, ◌++◌, map, if◌then◌else◌}
use go_judgy.Prelude.Int.{ℤ, pos, ltb_ℤ}
use go_judgy.Prelude.Bytes.{Bytes, bytes, beq, is_empty_text}
use go_judgy.Errors.Text.{to_lower}
use go_judgy.Floats.{Floats}
use go_judgy.Domain.Score.{Answer}
use go_judgy.Domain.Winner.{lt_bytes}
use go_judgy.Aggregation.Sorting.{sort}
use go_judgy.Transport.{OperationType, op_generation, op_scoring, operation_text, Request}
use go_judgy.Transport.Words.{trim_space, join, normalize_text}

pub record CanonicalMessage : Type 0 where
  pub role : Bytes
  pub content : Bytes

abbrev user_message : Bytes → CanonicalMessage
user_message content = record { role = bytes "user"; content = content }

abbrev pub current_canonical_version : Bytes
current_canonical_version = bytes "v1.0"

-- The part of a scoring message after the question: the sorted identifiers of the answers.
abbrev pub answers_part : List Answer → Bytes
answers_part [] = []
answers_part (a ∷ rest) =
    (10 ∷ bytes "Answers: ") ++ join (bytes ",") (sort lt_bytes (map (λ x. x.id) (a ∷ rest)))

unfoldable pub build_messages : OperationType → Bytes → List Answer → List CanonicalMessage
build_messages op_generation question answers =
    if is_empty_text question then [] else user_message (normalize_text question) ∷ []
build_messages op_scoring question answers =
    user_message (bytes "Question: " ++ (normalize_text question ++ answers_part answers)) ∷ []

pub data PayloadError : Type 0 where
  tenant_id_required operation_required provider_required model_required : PayloadError
  version_required : PayloadError
  invalid_operation invalid_provider : Bytes → PayloadError

module _ (F : Floats) where
  open F use {Float, zero_float, eq_float}

  pub data Param : Type 0 where
    integer : ℤ → Param
    float : Float → Param

  -- `none` for a nil map of parameters.
  pub record CanonicalPayload : Type 0 where
    pub tenant_id : Bytes
    pub operation : Bytes
    pub provider : Bytes
    pub model : Bytes
    pub system : Bytes
    pub messages : List CanonicalMessage
    pub params : Option (List (Bytes × Param))
    pub seed : Option ℤ
    pub version : Bytes

  -- A request with the fields that only the payload reads.
  pub record FullRequest : Type 0 where
    pub request : Request
    pub answers : List Answer
    pub temperature : Float

  abbrev non_empty : List (Bytes × Param) → Option (List (Bytes × Param))
  non_empty [] = none
  non_empty (p ∷ ps) = some (p ∷ ps)

  unfoldable pub build_params : ℤ → Float → Option (List (Bytes × Param))
  build_params max_tokens temperature =
      let temperature_part =
        if eq_float temperature zero_float
        then []
        else (bytes "temperature", float temperature) ∷ [] in
      non_empty (
        if ltb_ℤ (pos 0) max_tokens
        then (bytes "max_tokens", integer max_tokens) ∷ temperature_part
        else temperature_part)

  abbrev pub normalize_system : Bytes → Bytes
  normalize_system s = if is_empty_text s then [] else normalize_text s

  -- `BuildCanonicalPayload`, whose error is always nil.
  unfoldable pub build_canonical_payload : FullRequest → CanonicalPayload
  unfolding build_messages build_params
  build_canonical_payload full =
      let req = full.request in
      record {
        tenant_id = req.tenant_id;
        operation = operation_text req.operation;
        provider = to_lower (trim_space req.provider);
        model = trim_space req.model;
        system = normalize_system req.system_prompt;
        messages = build_messages req.operation req.question full.answers;
        params = build_params req.max_tokens full.temperature;
        seed = req.seed;
        version = current_canonical_version;
      }

  -- `BuildCanonicalPayloadFromGenerate`, in the order of its arguments.
  unfoldable pub build_canonical_payload_from_generate :
      Bytes → Bytes → Bytes → Bytes → Bytes → ℤ → Float → CanonicalPayload
  unfolding build_params
  build_canonical_payload_from_generate tenant_id question provider model system_prompt max_tokens
        temperature =
      record {
        tenant_id = tenant_id;
        operation = bytes "generation";
        provider = to_lower (trim_space provider);
        model = trim_space model;
        system = normalize_system system_prompt;
        messages =
            if is_empty_text question then [] else user_message (normalize_text question) ∷ [];
        params = build_params max_tokens temperature;
        seed = none;
        version = current_canonical_version;
      }

  abbrev check_provider : Bytes → Option PayloadError
  check_provider p =
      if beq p (bytes "openai")
      then none
      else if beq p (bytes "anthropic")
      then none
      else if beq p (bytes "google")
      then none
      else some (invalid_provider p)

  unfoldable pub validate_canonical_payload : CanonicalPayload → Option PayloadError
  validate_canonical_payload p =
      if is_empty_text p.tenant_id
      then some tenant_id_required
      else if is_empty_text p.operation
      then some operation_required
      else if is_empty_text p.provider
      then some provider_required
      else if is_empty_text p.model
      then some model_required
      else if is_empty_text p.version
      then some version_required
      else if beq p.operation (bytes "generation")
      then check_provider p.provider
      else if beq p.operation (bytes "scoring")
      then check_provider p.provider
      else some (invalid_operation p.operation)
