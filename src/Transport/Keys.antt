-- ===== src/Transport/Keys.antt =====
-- internal/llm/transport/idempotency.go: stable JSON and the keys that are hashed from it.
use go_judgy.Prelude.{◌≡◌, refl, Bool, ◌⊎◌, inl, inr, ◌++◌, if◌then◌else◌}
use go_judgy.Prelude.Bytes.{Bytes, bytes, beq}
use go_judgy.Errors.Types.{Err, wrapped}
use go_judgy.Errors.Text.{error_text}
use go_judgy.Floats.{Floats}
use go_judgy.Domain.Winner.{lt_bytes}
use go_judgy.Transport.{OperationType, operation_text}
use go_judgy.Transport.Payload.{CanonicalPayload, FullRequest, build_canonical_payload}

-- What `json.Unmarshal` makes of a text: an object, an array, or a primitive.
mutual
  pub data Json : Type 0 where
    object : Fields → Json
    array : Elements → Json
    primitive : Bytes → Json

  pub data Fields : Type 0 where
    no_fields : Fields
    field : Bytes → Json → Fields → Fields

  pub data Elements : Type 0 where
    no_elements : Elements
    element : Json → Elements → Elements

-- A field goes before the first one of a greater key.
unfoldable pub insert_field : Bytes → Json → Fields → Fields
insert_field k v no_fields = field k v no_fields
insert_field k v (field j w fs) =
    let rest = insert_field k v fs in
    if lt_bytes j k then field j w rest else field k v (field j w fs)

-- `sortKeys`: the fields of every object in the order of their keys.
unfoldable mutual
  unfolding insert_field

  pub sort_keys : Json → Json
  sort_keys (object fs) = object (sort_fields fs)
  sort_keys (array es) = array (sort_elements es)
  sort_keys (primitive t) = primitive t

  pub sort_fields : Fields → Fields
  sort_fields no_fields = no_fields
  sort_fields (field k v fs) = insert_field k (sort_keys v) (sort_fields fs)

  pub sort_elements : Elements → Elements
  sort_elements no_elements = no_elements
  sort_elements (element v es) = element (sort_keys v) (sort_elements es)

-- A value, or the error of a call.
abbrev pub Result : Type 0 → Type 0
Result A = Err ⊎ A

pub Result-cases : {A : Type 0} (r : Result A) → ((e : Err) × (r ≡ inl e)) ⊎ ((a : A) × (r ≡ inr a))
Result-cases (inl e) = inl (e, refl)
Result-cases (inr a) = inr (a, refl)

abbrev pub then_try : {A B : Type 0} → Result A → (A → Result B) → Result B
then_try (inl e) f = inl e
then_try (inr a) f = f a

pub then_try-ok :
    {A B : Type 0} (m : Result A) (f : A → Result B) {b : B}
    → then_try m f ≡ inr b
    → (a : A) × (m ≡ inr a) × (f a ≡ inr b)
then_try-ok (inl e) f h = cc
then_try-ok (inr a) f h = (a, refl, h)

abbrev pub wrap_error : {A : Type 0} → Bytes → Result A → Result A
wrap_error message (inl e) = inl (wrapped (message ++ error_text e) e)
wrap_error message (inr a) = inr a

module _ (F : Floats) where
  -- `encoding/json` on payloads and on parsed values, and the hexadecimal SHA-256.
  pub record Codec : Type 1 where
    pub marshal_payload : CanonicalPayload F → Result Bytes
    pub unmarshal : Bytes → Result Json
    pub marshal : Json → Result Bytes
    pub sha256_hex : Bytes → Bytes

  module _ (K : Codec) where
    open K use {marshal_payload, unmarshal, marshal, sha256_hex}

    unfoldable pub stable_json : CanonicalPayload F → Result Bytes
    unfolding sort_keys sort_fields sort_elements
    stable_json v =
        then_try (marshal_payload v)
          (λ text. then_try (unmarshal text) (λ j. marshal (sort_keys j)))

    unfoldable pub build_idem_key : CanonicalPayload F → Result Bytes
    unfolding stable_json
    build_idem_key payload =
        then_try (wrap_error (bytes "failed to marshal canonical payload: ") (stable_json payload))
          (λ text. inr (sha256_hex text))

    unfoldable pub generate_idem_key : FullRequest F → Result Bytes
    unfolding build_canonical_payload build_idem_key
    generate_idem_key req = build_idem_key (build_canonical_payload F req)

    unfoldable pub are_payloads_equivalent : CanonicalPayload F → CanonicalPayload F → Result Bool
    unfolding build_idem_key
    are_payloads_equivalent p1 p2 =
        then_try (wrap_error (bytes "failed to build key for p1: ") (build_idem_key p1)) (λ key1.
          then_try (wrap_error (bytes "failed to build key for p2: ") (build_idem_key p2))
            (λ key2. inr (beq key1 key2)))

    abbrev or_fallback : CanonicalPayload F → Result Bytes → Bytes
    or_fallback payload (inl e) = sha256_hex (payload.tenant_id ++ (bytes ":" ++ payload.operation))
    or_fallback payload (inr k) = k

    unfoldable pub hash_canonical_payload : CanonicalPayload F → Bytes
    unfolding build_idem_key
    hash_canonical_payload payload = or_fallback payload (build_idem_key payload)

unfoldable pub cache_key : Bytes → OperationType → Bytes → Bytes
cache_key tenant_id operation idem_key =
    bytes "llm:"
    ++ (tenant_id ++ (bytes ":" ++ (operation_text operation ++ (bytes ":" ++ idem_key))))
