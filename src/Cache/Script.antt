-- ===== src/Cache/Script.antt =====
-- internal/llm/cache/redis_operations.go: the script that looks for an entry or takes a lease, and the
-- reading of its reply.
use go_judgy.Prelude.{
  Bool, true, false, ◌||◌, Option, none, some, ◌⊎◌, inl, inr, List, [], ◌∷◌, ◌++◌, ◌==◌,
  if◌then◌else◌,
}
use go_judgy.Prelude.Int.{ℤ, pos, negsuc, ltb_ℤ, leb_ℤ, ◌-ℤ◌, div_trunc}
use go_judgy.Prelude.Bytes.{Bytes, bytes}
use go_judgy.Errors.Types.{Err, wrapped, plain_error}
use go_judgy.Errors.Text.{error_text}
use go_judgy.Transport.{Response}
use go_judgy.Cache.Redis.{
  LuaValue, number, text, nil, ReplyValue, integer, bulk, Redis, CacheEntry, Codec,
}
use go_judgy.Cache.Entry.{entry_to_response}

pub data CacheStatus : Type 0 where
  lease_failed cache_hit lease_acquired : CacheStatus

-- What `atomicCheckAndLease` returns.
pub record Check : Type 0 where
  pub status : CacheStatus
  pub cached : Option Response
  pub acquired : Bool
  pub err : Option Err

-- At least two bytes, the first an opening brace.
abbrev pub looks_valid : Bytes → Bool
looks_valid [] = false
looks_valid (c ∷ []) = false
looks_valid (c ∷ d ∷ cs) = c == 123

-- An age that is not negative and at most the maximum, which is checked if it is not negative.
abbrev pub is_fresh : ℤ → ℤ → Option ℤ → Bool
is_fresh max_age now none = ltb_ℤ max_age (pos 0)
is_fresh max_age now (some t) =
    ltb_ℤ max_age (pos 0) || (if ltb_ℤ (now -ℤ t) (pos 0) then false else leb_ℤ (now -ℤ t) max_age)

-- The maximum age of the configuration, in nanoseconds, as the script takes it.
abbrev pub max_age_ms : ℤ → ℤ
max_age_ms max_age = if ltb_ℤ (pos 0) max_age then div_trunc max_age 1000000 else negsuc 0

module _ (R : Redis) (K : Codec) where
  open R use {Store, get, del, set_nx, array}

  unfoldable pub lease : Bytes → ℤ → Store → Store × List LuaValue
  lease lease_key ttl s =
      let (s', leased) = set_nx lease_key ttl s in
      (s', if leased then number (pos 2) ∷ nil ∷ [] else number (pos 0) ∷ nil ∷ [])

  abbrev pub look : Bytes → Bytes → ℤ → ℤ → ℤ → Store → Option Bytes → Store × List LuaValue
  look key lease_key ttl max_age now s none = lease lease_key ttl s
  look key lease_key ttl max_age now s (some cached) =
      if looks_valid cached
      then (if is_fresh max_age now (K.stored_at cached)
          then (s, number (pos 1) ∷ text cached ∷ [])
          else lease lease_key ttl (del key s))
      else lease lease_key ttl (del key s)

  -- The script; `now` is the time of the server.
  unfoldable pub hit_or_lease : Bytes → Bytes → ℤ → ℤ → ℤ → Store → Store × List LuaValue
  unfolding lease
  hit_or_lease key lease_key ttl max_age now s = look key lease_key ttl max_age now s (get key s)

  abbrev pub failed : Err → Check
  failed e = record { status = lease_failed; cached = none; acquired = false; err = some e }

  abbrev pub of_entry : Err ⊎ CacheEntry → Check
  of_entry (inl e) = failed (wrapped (bytes "cache entry unmarshal failed: " ++ error_text e) e)
  of_entry (inr e) = record {
    status = cache_hit;
    cached = some (entry_to_response K e);
    acquired = false;
    err = none;
  }

  abbrev not_leased : Check
  not_leased = record { status = lease_failed; cached = none; acquired = false; err = none }

  abbrev pub leased : Check
  leased = record { status = lease_acquired; cached = none; acquired = true; err = none }

  abbrev pub of_status : ℤ → ReplyValue → Check
  of_status (negsuc n) v = not_leased
  of_status (pos n) v =
      if n == 1
      then elim v [
        | bulk t ↦ of_entry (K.unmarshal_entry t)
        | integer m ↦ failed (plain_error (bytes "invalid cached data type int64"))
      ]
      else if n == 2
      then leased
      else not_leased

  abbrev bad_format : Check
  bad_format = failed (plain_error (bytes "unexpected script result format"))

  -- The reply has two values, the first an integer.
  unfoldable pub read_check : List ReplyValue → Check
  unfolding entry_to_response
  read_check [] = bad_format
  read_check (v ∷ []) = bad_format
  read_check (integer n ∷ v ∷ []) = of_status n v
  read_check (bulk t ∷ v ∷ []) = failed (plain_error (bytes "invalid status code in script result"))
  read_check (u ∷ v ∷ w ∷ vs) = bad_format

  -- `eval_error` is the error of a call of `Eval` that did not reach Redis.
  unfoldable pub atomic_check_and_lease :
      Bool → Option Err → Bytes → Bytes → ℤ → ℤ → ℤ → Store → Store × Check
  unfolding hit_or_lease read_check
  atomic_check_and_lease has_client eval_error key lease_key ttl max_age now s =
      let (s', values) = hit_or_lease key lease_key ttl (max_age_ms max_age) now s in
      if has_client
      then elim eval_error [
        | some e ↦ (s, failed (wrapped (bytes "atomic check-and-lease failed: " ++ error_text e) e))
        | none ↦ (s', read_check (array values))
      ]
      else (s, leased)
