-- ===== src/Cache/Hits.antt =====
-- internal/llm/cache: a response that was stored is served again.
use go_judgy.Prelude.{◌≡◌, ◌∙◌, refl, ap, true, false, none, some, inr}
use go_judgy.Prelude.Int.{ℤ, pos, inc64}
use go_judgy.Prelude.Bytes.{Bytes, is_empty_text}
use go_judgy.Transport.{Request, Response, Context, Handler}
use go_judgy.Cache.Redis.{Redis, CacheEntry, Codec}
use go_judgy.Cache.Entry.{cache_key_of, get_ttl, response_to_entry, entry_to_response}
use go_judgy.Cache.Script.{
  cache_hit, Check, looks_valid, is_fresh, max_age_ms, look, hit_or_lease, read_check,
  atomic_check_and_lease,
}
use go_judgy.Cache.Middleware.{
  CacheConfig, CacheState, Visit, lease_key_of, lease_timeout, put_data, set_cached, on_status,
  with_key, through_cache, handle,
}

module _ (R : Redis) (K : Codec) where
  open R use {Store, get, set, array, get-set, array-text}

  set_cached-stored :
      (v : Visit R K) (key written : Bytes) (resp : Response) (req : Request) (s : Store)
      → v.set_error ≡ none
      → K.marshal_entry (response_to_entry v.stored_now resp req) ≡ inr written
      → get key (set_cached R K true v key resp req s) ≡ some written
  unfolding set_cached
  set_cached-stored v key written resp req s ok wrote =
      rw (wrote, put_data, ok) (get-set key written (get_ttl req) s)

  abbrev served_check : Response → Check
  served_check resp = record {
    status = cache_hit;
    cached = some resp;
    acquired = false;
    err = none;
  }

  check-hit :
      (key lease_key written : Bytes) (ttl max_age now : ℤ) (s : Store) (e : CacheEntry)
      → get key s ≡ some written
      → looks_valid written ≡ true
      → is_fresh (max_age_ms max_age) now (K.stored_at written) ≡ true
      → K.unmarshal_entry written ≡ inr e
      → atomic_check_and_lease R K true none key lease_key ttl max_age now s
        ≡ (s, served_check (entry_to_response K e))
  unfolding atomic_check_and_lease hit_or_lease read_check
  check-hit key lease_key written ttl max_age now s e found looks fresh read =
      rw (found, look, looks, fresh, array-text (pos 1) written, read) refl

  through_cache-hit :
      {W : Type 0} (cfg : CacheConfig) (next : Handler W) (v : Visit R K) (ctx : Context)
      (req : Request) (key written : Bytes) (e : CacheEntry) (c : CacheState R K) (w : W)
      → cfg.has_client ≡ true
      → v.eval_error ≡ none
      → get key c.store ≡ some written
      → looks_valid written ≡ true
      → is_fresh (max_age_ms cfg.max_age) v.server_now (K.stored_at written) ≡ true
      → K.unmarshal_entry written ≡ inr e
      → through_cache R K cfg next v ctx req key (c, w)
        ≡ ((record c { hits = inc64 c.hits }, w), (some (entry_to_response K e), none))
  unfolding through_cache
  through_cache-hit cfg next v ctx req key written e c w client eval_ok found looks fresh read =
      let checked : atomic_check_and_lease R K cfg.has_client v.eval_error key (lease_key_of key)
            lease_timeout cfg.max_age v.server_now c.store
          ≡ (c.store, served_check (entry_to_response K e)) =
        rw (client, eval_ok)
          (check-hit key (lease_key_of key) written lease_timeout cfg.max_age v.server_now c.store e
            found looks fresh read) in
      ap (λ p. on_status R K cfg next v ctx req key (record c { store = p.0 }, w) p.1 p.1.status)
        checked

  -- A response is stored for a request, and later requests of the same key find it: with a client
  -- that reaches Redis, an encoder that can read back what it wrote, and an age that the script
  -- accepts, such a request is a hit, does not call the next handler, leaves Redis as it is, and
  -- gets the response with the body, the usage and the cost that were stored.
  pub handle-stored :
      {W : Type 0} (cfg : CacheConfig) (next : Handler W) (v v' : Visit R K) (ctx : Context)
      (req req' : Request) (key written : Bytes) (resp : Response) (c : CacheState R K) (w : W)
      → cfg.enabled ≡ true
      → cfg.has_client ≡ true
      → is_empty_text req'.idempotency_key ≡ false
      → cache_key_of req' ≡ some key
      → v.set_error ≡ none
      → K.marshal_entry (response_to_entry v.stored_now resp req) ≡ inr written
      → K.unmarshal_entry written ≡ inr (response_to_entry v.stored_now resp req)
      → looks_valid written ≡ true
      → is_fresh (max_age_ms cfg.max_age) v'.server_now (K.stored_at written) ≡ true
      → v'.eval_error ≡ none
      → (served : Response) × ((handle R K cfg next v' ctx req'
              (record c { store = set_cached R K true v key resp req c.store }, w)
            ≡ (
              (
                record c {
                  hits = inc64 c.hits;
                  store = set_cached R K true v key resp req c.store;
                },
                w,
              ),
              (some served, none),
            ))
          × ((served.raw_body ≡ resp.raw_body)
              × ((served.usage ≡ resp.usage)
                  × (served.estimated_cost_milli_cents ≡ resp.estimated_cost_milli_cents))))
  unfolding handle response_to_entry entry_to_response
  handle-stored cfg next v v' ctx req req' key written resp c w on client idem keyed set_ok wrote
        read looks fresh eval_ok =
      let s = set_cached R K true v key resp req c.store in
      let found : get key s ≡ some written =
        set_cached-stored v key written resp req c.store set_ok wrote in
      (
        entry_to_response K (response_to_entry v.stored_now resp req),
        (
          rw (on, idem)
              (ap (with_key R K cfg next v' ctx req' (record c { store = s }, w)) keyed
                ∙ through_cache-hit cfg next v' ctx req' key written
                    (response_to_entry v.stored_now resp req) (record c { store = s }) w client
                    eval_ok found looks fresh read),
          (refl, (refl, refl)),
        ),
      )
