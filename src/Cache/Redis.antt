-- ===== src/Cache/Redis.antt =====
-- The commands of Redis that internal/llm/cache calls, and `encoding/json` on the entries that it
-- stores, as interfaces. Times are milliseconds, times to live nanoseconds.
use go_judgy.Prelude.{◌≡◌, Bool, Option, some, ◌⊎◌, List, [], ◌∷◌}
use go_judgy.Prelude.Int.{ℤ}
use go_judgy.Prelude.Bytes.{Bytes}
use go_judgy.Errors.Types.{Err}
use go_judgy.Transport.{NormalizedUsage}

-- A value of Lua in a table that a script returns.
pub data LuaValue : Type 0 where
  number : ℤ → LuaValue
  text : Bytes → LuaValue
  nil : LuaValue

pub data ReplyValue : Type 0 where
  integer : ℤ → ReplyValue
  bulk : Bytes → ReplyValue

-- The documentation says that a table becomes an array that ends before its first nil, that a value
-- that was set is read until it expires, and that another key does not change it.
pub record Redis : Type 1 where
  pub Store : Type 0
  pub get : Bytes → Store → Option Bytes
  pub set : Bytes → Bytes → ℤ → Store → Store
  pub del : Bytes → Store → Store
  pub set_nx : Bytes → ℤ → Store → Store × Bool
  pub array : List LuaValue → List ReplyValue
  pub get-set : (k v : Bytes) (ttl : ℤ) (s : Store) → get k (set k v ttl s) ≡ some v
  pub array-nil : (n : ℤ) → array (number n ∷ nil ∷ []) ≡ integer n ∷ []
  pub array-text : (n : ℤ) (t : Bytes) → array (number n ∷ text t ∷ []) ≡ integer n ∷ bulk t ∷ []

-- `IdempotentCacheEntry`.
pub record CacheEntry : Type 0 where
  pub provider : Bytes
  pub model : Bytes
  pub raw_response : Bytes
  pub response_headers : List (Bytes × Bytes)
  pub usage : NormalizedUsage
  pub estimated_milli_cents : ℤ
  pub stored_at_unix_ms : ℤ

-- `json.Marshal` and `json.Unmarshal`, and what the script's `cjson` finds under "stored_at_ms"
-- (`none` without a table or a number there). The last four read the fields that hold the content
-- in a response of a provider: `none` is an error, and a list has the texts in their order.
pub record Codec : Type 0 where
  pub marshal_entry : CacheEntry → Err ⊎ Bytes
  pub unmarshal_entry : Bytes → Err ⊎ CacheEntry
  pub stored_at : Bytes → Option ℤ
  pub choices : Bytes → Option (List Bytes)
  pub contents : Bytes → Option (List Bytes)
  pub candidates : Bytes → Option (List (List Bytes))
  pub generic : Bytes → Option Bytes
