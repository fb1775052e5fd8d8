-- ===== src/Cache/Tests.antt =====
-- internal/llm/cache: each theorem at an input that meets its hypotheses. Redis is here a list of
-- values that do not expire, and JSON knows one entry.
use go_judgy.Prelude.{
  ◌≡◌, refl, inr, Bool, true, false, Option, none, some, List, [], ◌∷◌, if◌then◌else◌,
}
use go_judgy.Prelude.Int.{pos, inc64, ◌-ℤ◌, div_trunc}
use go_judgy.Prelude.Bytes.{Bytes, bytes, beq, lookup, insert, lookup-insert_self}
use go_judgy.Transport.{op_scoring, Request, Response, NormalizedUsage, Handler}
use go_judgy.Transport.Keys.{cache_key}
use go_judgy.Cache.Redis.{
  LuaValue, number, text, nil, ReplyValue, integer, bulk, Redis, CacheEntry, Codec,
}
use go_judgy.Cache.Entry.{
  cache_key_of, validate_cache_key_fields, response_to_entry, essential_headers,
}
use go_judgy.Cache.Script.{atomic_check_and_lease}
use go_judgy.Cache.Middleware.{CacheConfig, CacheState, Visit, set_cached, handle}
use go_judgy.Cache.Leases.{check-unseen}
use go_judgy.Cache.Hits.{handle-stored}

abbrev remove : Bytes → List (Bytes × Bytes) → List (Bytes × Bytes)
remove k [] = []
remove k ((j, v) ∷ m) = let rest = remove k m in if beq j k then rest else (j, v) ∷ rest

abbrev set_if_absent : Bytes → List (Bytes × Bytes) → Option Bytes → List (Bytes × Bytes) × Bool
set_if_absent k s none = (insert k (bytes "1") s, true)
set_if_absent k s (some v) = (s, false)

abbrev until_nil : List LuaValue → List ReplyValue
until_nil [] = []
until_nil (number n ∷ vs) = integer n ∷ until_nil vs
until_nil (text t ∷ vs) = bulk t ∷ until_nil vs
until_nil (nil ∷ vs) = []

abbrev listed : Redis
listed = record {
  Store = List (Bytes × Bytes);
  get = λ k s. lookup k s;
  set = λ k v ttl s. insert k v s;
  del = λ k s. remove k s;
  set_nx = λ k ttl s. set_if_absent k s (lookup k s);
  array = λ vs. until_nil vs;
  get-set = λ k v ttl s. lookup-insert_self k v s;
  array-nil = λ n. refl;
  array-text = λ n t. refl;
}

abbrev usage : NormalizedUsage
usage = record {
  prompt_tokens = pos 3;
  completion_tokens = pos 4;
  total_tokens = pos 7;
  latency_ms = pos 1;
}

abbrev request : Request
request = record {
  operation = op_scoring;
  provider = bytes "acme";
  model = bytes "tiny";
  tenant_id = bytes "t";
  question = bytes "q";
  max_tokens = pos 10;
  seed = none;
  system_prompt = [];
  timeout = pos 0;
  idempotency_key = bytes "12345678";
  trace_id = [];
  metadata = [];
}

abbrev response : Response
response = record {
  content = bytes "yes";
  finish_reason = bytes "stop";
  provider_request_ids = [];
  usage = usage;
  estimated_cost_milli_cents = pos 9;
  headers = [];
  raw_body = bytes "yes";
}

abbrev stored_entry : CacheEntry
stored_entry = record {
  provider = bytes "acme";
  model = bytes "tiny";
  raw_response = bytes "yes";
  response_headers = [];
  usage = usage;
  estimated_milli_cents = pos 9;
  stored_at_unix_ms = pos 1000;
}

abbrev one_entry : Codec
one_entry = record {
  marshal_entry = λ e. inr (bytes "{}");
  unmarshal_entry = λ t. inr stored_entry;
  stored_at = λ t. some (pos 1000);
  choices = λ t. none;
  contents = λ t. none;
  candidates = λ t. none;
  generic = λ t. none;
}

abbrev visit : Visit listed one_entry
visit = record {
  eval_error = none;
  get_error = none;
  set_error = none;
  delete_fails = false;
  server_now = pos 1500;
  stored_now = pos 1000;
  wait_ended = none;
  in_wait = λ s. s;
  in_call = λ s. s;
}

abbrev empty_state : CacheState listed one_entry
empty_state = record { hits = pos 0; misses = pos 0; errors = pos 0; store = [] }

abbrev config : CacheConfig
config = record { enabled = true; has_client = true; max_age = pos 5000000000 }

abbrev failing : Handler (Unit {0})
failing ctx req w = (w, (none, none))

abbrev request_key : Bytes
request_key = bytes "llm:t:scoring:12345678"

-- An empty store: the script takes the lease, and the check has none.
check-unseen_example :
    (atomic_check_and_lease listed one_entry true none request_key
      (bytes "lease")
      (pos 30)
      (pos 0)
      (pos 5)
      []).1.acquired
    ≡ false
check-unseen_example =
    check-unseen listed one_entry none request_key (bytes "lease") (pos 30) (pos 0) (pos 5) []

handle-stored_example :
    (served : Response) × ((handle listed one_entry config failing visit [] request (
      record empty_state {
        store = set_cached listed one_entry true visit request_key response request [];
      },
      tt,
    )
        ≡ (
          (
            record empty_state {
              hits = inc64 (pos 0);
              store = set_cached listed one_entry true visit request_key response request [];
            },
            tt,
          ),
          (some served, none),
        ))
      × ((served.raw_body ≡ bytes "yes")
          × ((served.usage ≡ usage) × (served.estimated_cost_milli_cents ≡ pos 9))))
unfolding cache_key_of validate_cache_key_fields cache_key response_to_entry essential_headers ◌-ℤ◌
    div_trunc
handle-stored_example =
    handle-stored listed one_entry config failing visit visit [] request request request_key
      (bytes "{}") response empty_state tt refl refl refl refl refl refl refl refl refl refl
