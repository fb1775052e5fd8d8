-- ===== src/Cache/Entry.antt =====
-- internal/llm/cache/key_management.go, response_transform.go and provider_parsers.go: which requests
-- have a key, and the entries that stand for responses.
use go_judgy.Prelude.{ℕ, Bool, ◌||◌, Option, none, some, List, [], ◌∷◌, length, ltb, if◌then◌else◌}
use go_judgy.Prelude.Int.{ℤ, pos}
use go_judgy.Prelude.Bytes.{Bytes, bytes, beq, is_empty_text, lookup}
use go_judgy.Transport.{op_generation, op_scoring, Request, Response}
use go_judgy.Transport.Keys.{cache_key}
use go_judgy.Cache.Redis.{CacheEntry, Codec}

pub data KeyError : Type 0 where
  tenant_required key_required : KeyError
  key_too_long key_too_short : ℕ → KeyError

-- `validateCacheKeyFields`; both operations are cacheable, and none is empty.
unfoldable pub validate_cache_key_fields : Request → Option KeyError
validate_cache_key_fields req =
    if is_empty_text req.tenant_id
    then some tenant_required
    else if is_empty_text req.idempotency_key
    then some key_required
    else if ltb 256 (length req.idempotency_key)
    then some (key_too_long (length req.idempotency_key))
    else if ltb (length req.idempotency_key) 8
    then some (key_too_short (length req.idempotency_key))
    else none

-- `buildKey`; `none` for an error.
unfoldable pub cache_key_of : Request → Option Bytes
unfolding validate_cache_key_fields cache_key
cache_key_of req = elim (validate_cache_key_fields req) [
  | some e ↦ none
  | none ↦ some (cache_key req.tenant_id req.operation req.idempotency_key)
]

-- `getTTL`: 24 hours and one.
unfoldable pub get_ttl : Request → ℤ
get_ttl req = elim req.operation [
  | op_generation ↦ pos 86400000000000
  | op_scoring ↦ pos 3600000000000
]

abbrev is_essential : Bytes → Bool
is_essential k =
    beq k (bytes "Content-Type")
    || (beq k (bytes "X-Request-ID") || beq k (bytes "X-RateLimit-Remaining"))

-- The first values of the essential headers.
unfoldable pub essential_headers : List (Bytes × List Bytes) → List (Bytes × Bytes)
essential_headers [] = []
essential_headers ((k, []) ∷ headers) = essential_headers headers
essential_headers ((k, v ∷ vs) ∷ headers) =
    let rest = essential_headers headers in if is_essential k then (k, v) ∷ rest else rest

unfoldable pub response_to_entry : ℤ → Response → Request → CacheEntry
unfolding essential_headers
response_to_entry now resp req = record {
  provider = req.provider;
  model = req.model;
  raw_response = resp.raw_body;
  response_headers = essential_headers resp.headers;
  usage = resp.usage;
  estimated_milli_cents = resp.estimated_cost_milli_cents;
  stored_at_unix_ms = now;
}

-- The first text, or the raw body.
abbrev first_text : Bytes → Option (List Bytes) → Bytes
first_text raw none = raw
first_text raw (some []) = raw
first_text raw (some (t ∷ ts)) = t

abbrev first_part : Bytes → Option (List (List Bytes)) → Bytes
first_part raw none = raw
first_part raw (some []) = raw
first_part raw (some ([] ∷ cs)) = raw
first_part raw (some ((t ∷ ts) ∷ cs)) = t

abbrev generic_text : Bytes → Option Bytes → Bytes
generic_text raw none = raw
generic_text raw (some t) = if is_empty_text t then raw else t

abbrev request_ids : Option Bytes → List Bytes
request_ids none = []
request_ids (some id) = id ∷ []

abbrev header_lists : List (Bytes × Bytes) → List (Bytes × List Bytes)
header_lists [] = []
header_lists ((k, v) ∷ headers) = (k, v ∷ []) ∷ header_lists headers

module _ (K : Codec) where
  unfoldable pub extract_content : Bytes → Bytes → Bytes
  extract_content raw provider =
      if is_empty_text raw
      then []
      else if beq provider (bytes "openai")
      then first_text raw (K.choices raw)
      else if beq provider (bytes "anthropic")
      then first_text raw (K.contents raw)
      else if beq provider (bytes "google")
      then first_part raw (K.candidates raw)
      else generic_text raw (K.generic raw)

  unfoldable pub entry_to_response : CacheEntry → Response
  unfolding extract_content
  entry_to_response e = record {
    content = extract_content e.raw_response e.provider;
    finish_reason = bytes "stop";
    provider_request_ids = request_ids (lookup (bytes "X-Request-ID") e.response_headers);
    usage = e.usage;
    estimated_cost_milli_cents = e.estimated_milli_cents;
    headers = header_lists e.response_headers;
    raw_body = e.raw_response;
  }
