-- ===== src/Cache/Leases.antt =====
-- internal/llm/cache/redis_operations.go: the leases that the middleware sees.
use go_judgy.Prelude.{◌≡◌, refl, ◌⊎◌, true, false, Bool-cases, inl, inr, Option, none, some}
use go_judgy.Prelude.Int.{ℤ, pos}
use go_judgy.Prelude.Bytes.{Bytes}
use go_judgy.Errors.Types.{Err}
use go_judgy.Cache.Redis.{Redis, CacheEntry, Codec}
use go_judgy.Cache.Script.{
  looks_valid, is_fresh, max_age_ms, lease, look, hit_or_lease, of_entry, read_check,
  atomic_check_and_lease,
}

module _ (R : Redis) (K : Codec) where
  open R use {Store, get, set_nx, array, array-nil, array-text}

  -- A reply that ends before the nil has one value, which is no lease.
  lease-unseen :
      (key : Bytes) (ttl : ℤ) (s : Store)
      → (read_check R K (array (lease R K key ttl s).1)).acquired ≡ false
  unfolding lease read_check
  lease-unseen key ttl s = elim (Bool-cases (set_nx key ttl s).1) [
    | inl leased ↦ rw (leased, array-nil (pos 2)) refl
    | inr held ↦ rw (held, array-nil (pos 0)) refl
  ]

  hit-unseen : (e : Err ⊎ CacheEntry) → (of_entry R K e).acquired ≡ false
  hit-unseen (inl e) = refl
  hit-unseen (inr e) = refl

  look-unseen :
      (key lease_key : Bytes) (ttl max_age now : ℤ) (s : Store) (o : Option Bytes)
      → (read_check R K (array (look R K key lease_key ttl max_age now s o).1)).acquired ≡ false
  unfolding read_check
  look-unseen key lease_key ttl max_age now s none = lease-unseen lease_key ttl s
  look-unseen key lease_key ttl max_age now s (some cached) =
      elim (Bool-cases (looks_valid cached)) [
        | inr bad ↦ rw bad (lease-unseen lease_key ttl (R.del key s))
        | inl good ↦ elim (Bool-cases (is_fresh max_age now (K.stored_at cached))) [
          | inr stale ↦ rw (good, stale) (lease-unseen lease_key ttl (R.del key s))
          | inl fresh ↦
              rw (good, fresh, array-text (pos 1) cached) (hit-unseen (K.unmarshal_entry cached))
        ]
      ]

  -- With a Redis client, no check acquires a lease, whatever Redis holds and the script does: the
  -- reply to a lease that was taken ends before its nil and is read as one of another form.
  pub check-unseen :
      (eval_error : Option Err) (key lease_key : Bytes) (ttl max_age now : ℤ) (s : Store)
      → (atomic_check_and_lease R K true eval_error key lease_key ttl max_age now s).1.acquired
        ≡ false
  unfolding atomic_check_and_lease hit_or_lease
  check-unseen (some e) key lease_key ttl max_age now s = refl
  check-unseen none key lease_key ttl max_age now s =
      look-unseen key lease_key ttl (max_age_ms max_age) now s (R.get key s)
