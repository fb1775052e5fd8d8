-- ===== src/Cache/Middleware.antt =====
-- internal/llm/cache/middleware.go: the handler of the cache, with the counters of stats.go. The
-- connection to Redis, logging and the pool's own statistics are left out.
use go_judgy.Prelude.{Bool, not, ◌&&◌, ◌||◌, Option, none, some, ◌⊎◌, inl, inr, ◌++◌, if◌then◌else◌}
use go_judgy.Prelude.Int.{ℤ, pos, ltb_ℤ, inc64, int64, ◌+ℤ◌}
use go_judgy.Prelude.Bytes.{Bytes, bytes, is_empty_text}
use go_judgy.Errors.Types.{Err}
use go_judgy.Floats.{Floats}
use go_judgy.Transport.{Request, Response, Context, Reply, Handler}
use go_judgy.Cache.Redis.{Redis, Codec}
use go_judgy.Cache.Entry.{cache_key_of, get_ttl, response_to_entry, entry_to_response}
use go_judgy.Cache.Script.{
  CacheStatus, lease_failed, cache_hit, lease_acquired, Check, atomic_check_and_lease,
}

pub record CacheConfig : Type 0 where
  pub enabled : Bool
  pub has_client : Bool
  pub max_age : ℤ

abbrev pub lease_key_of : Bytes → Bytes
lease_key_of key = key ++ bytes ":lease"

-- In seconds, as the script takes it.
abbrev pub lease_timeout : ℤ
lease_timeout = pos 30

module _ (R : Redis) (K : Codec) where
  open R use {Store, get, set, del}

  -- The counters, and what Redis holds.
  pub record CacheState : Type 0 where
    pub hits : ℤ
    pub misses : ℤ
    pub errors : ℤ
    pub store : Store

  -- What one request meets: the errors of the calls of Redis, the time of the server and of the
  -- entry, whether the context ends in the wait, and what other processes do to Redis in the wait
  -- and in the call of the next handler.
  pub record Visit : Type 0 where
    pub eval_error : Option Err
    pub get_error : Option Err
    pub set_error : Option Err
    pub delete_fails : Bool
    pub server_now : ℤ
    pub stored_now : ℤ
    pub wait_ended : Option Err
    pub in_wait : Store → Store
    pub in_call : Store → Store

  abbrev hit : CacheState → CacheState
  hit c = record c { hits = inc64 c.hits }

  abbrev miss : CacheState → CacheState
  miss c = record c { misses = inc64 c.misses }

  abbrev of_data : Bytes → Store → Option Bytes → Store × Option Response
  of_data key s none = (s, none)
  of_data key s (some stored) = elim (K.unmarshal_entry stored) [
    | inl e ↦ (del key s, none)
    | inr e ↦ (s, some (entry_to_response K e))
  ]

  -- `get`; `none` for an error. A corrupted entry is removed.
  unfoldable pub get_cached : Bool → Visit → Bytes → Store → Store × Option Response
  unfolding entry_to_response
  get_cached has_client v key s =
      if not has_client
      then (s, none)
      else elim v.get_error [ some e ↦ (s, none) | none ↦ of_data key s (get key s) ]

  abbrev pub put_data : Visit → Bytes → Request → Store → Err ⊎ Bytes → Store
  put_data v key req s (inl e) = s
  put_data v key req s (inr stored) = elim v.set_error [
    | some e ↦ s
    | none ↦ set key stored (get_ttl req) s
  ]

  -- `set`, whose error is only logged.
  unfoldable pub set_cached : Bool → Visit → Bytes → Response → Request → Store → Store
  unfolding get_ttl response_to_entry
  set_cached has_client v key resp req s =
      if has_client
      then put_data v key req s (K.marshal_entry (response_to_entry v.stored_now resp req))
      else s

  module _ {W : Type 0} (cfg : CacheConfig) (next : Handler W) (v : Visit) where
    -- The deferred removal of the lease.
    abbrev release : Bool → Bytes → Store → Store
    release acquired key s =
        if acquired && (cfg.has_client && not v.delete_fails) then del (lease_key_of key) s else s

    abbrev finish : Bytes → Request → Bool → CacheState × W → Reply → (CacheState × W) × Reply
    finish key req acquired (c, w) (resp, some e) =
        ((record c { store = release acquired key c.store }, w), (none, some e))
    finish key req acquired (c, w) (none, none) =
        ((record c { store = release acquired key c.store }, w), (none, none))
    finish key req acquired (c, w) (some resp, none) = (
      (
        record c {
          store = release acquired key (set_cached cfg.has_client v key resp req c.store);
        },
        w,
      ),
      (some resp, none),
    )

    -- From the test of `err` on.
    unfoldable pub execute :
        Context → Request → Bytes → Check → CacheState × W → (CacheState × W) × Reply
    unfolding set_cached
    execute ctx req key check (c, w) =
        let counted : CacheState = elim check.err [
          | some e ↦ record c { errors = inc64 c.errors }
          | none ↦ c
        ] in
        let (w', reply) = next ctx req w in
        finish key req check.acquired (record counted { store = v.in_call counted.store }, w') reply

    abbrev after_get :
        Context
        → Request
        → Bytes
        → Check
        → CacheState × W
        → Store × Option Response
        → (CacheState × W) × Reply
    after_get ctx req key check (c, w) (s, some resp) =
        ((hit (record c { store = s }), w), (some resp, none))
    after_get ctx req key check (c, w) (s, none) =
        execute ctx req key check (record c { store = s }, w)

    -- The wait for the holder of the lease.
    unfoldable pub wait_for_holder :
        Context → Request → Bytes → Check → CacheState × W → (CacheState × W) × Reply
    unfolding execute get_cached
    wait_for_holder ctx req key check (c, w) = elim v.wait_ended [
      | some e ↦ ((c, w), (none, some e))
      | none ↦
          after_get ctx req key check (c, w) (get_cached cfg.has_client v key (v.in_wait c.store))
    ]

    abbrev pub on_status :
        Context → Request → Bytes → CacheState × W → Check → CacheStatus → (CacheState × W) × Reply
    on_status ctx req key (c, w) check cache_hit = ((hit c, w), (check.cached, none))
    on_status ctx req key (c, w) check lease_acquired = execute ctx req key check (miss c, w)
    on_status ctx req key (c, w) check lease_failed = wait_for_holder ctx req key check (miss c, w)

    unfoldable pub through_cache :
        Context → Request → Bytes → CacheState × W → (CacheState × W) × Reply
    unfolding atomic_check_and_lease execute wait_for_holder
    through_cache ctx req key (c, w) =
        let (s, check) =
          atomic_check_and_lease R K cfg.has_client v.eval_error key (lease_key_of key)
            lease_timeout cfg.max_age v.server_now c.store in
        on_status ctx req key (record c { store = s }, w) check check.status

    abbrev pub pass_by : Context → Request → CacheState × W → (CacheState × W) × Reply
    pass_by ctx req (c, w) =
        let (w', reply) = next ctx req w in ((record c { store = v.in_call c.store }, w'), reply)

    abbrev pub with_key :
        Context → Request → CacheState × W → Option Bytes → (CacheState × W) × Reply
    with_key ctx req cw none = pass_by ctx req cw
    with_key ctx req cw (some key) = through_cache ctx req key cw

    -- The handler.
    unfoldable pub handle : Context → Request → CacheState × W → (CacheState × W) × Reply
    unfolding through_cache cache_key_of
    handle ctx req cw =
        if not cfg.enabled || is_empty_text req.idempotency_key
        then pass_by ctx req cw
        else with_key ctx req cw (cache_key_of req)

  -- `GetStats` without the statistics of the pool: hits, misses, errors and the rate of hits.
  module _ (F : Floats) where
    unfoldable pub get_stats : CacheState → (ℤ × (ℤ × ℤ)) × F.Float
    get_stats c =
        let total = int64 (c.hits +ℤ c.misses) in
        (
          (c.hits, (c.misses, c.errors)),
          if ltb_ℤ (pos 0) total
              then F.div_float (F.of_int c.hits) (F.of_int total)
              else F.zero_float,
        )
