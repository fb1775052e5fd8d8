-- ===== src/Breaker/Sharded.antt =====
-- internal/llm/circuitbreaker/sharded.go: the table of breakers, in 16 shards by a hash of the key.
-- A shard's lock makes the body of `getOrCreate` one step. A breaker is shared by pointer, so a
-- method that changes it is an update of the table at its key.
use go_judgy.Prelude.{
  ℕ, ◌+◌, ◌*◌, ◌%◌, ◌^◌, ◌&&◌, Option, none, some, List, [], ◌∷◌, ◌==◌, if◌then◌else◌,
}
use go_judgy.Prelude.Int.{ℤ, pos, ltb_ℤ, inc64, dec64}
use go_judgy.Prelude.Bytes.{Bytes, lookup, insert}
use go_judgy.Errors.Types.{ProviderError}
use go_judgy.Breaker.State.{CircuitBreaker}
use go_judgy.Breaker.Machine.{breaker_error}

abbrev pub shard_count : ℕ
shard_count = 16

abbrev pub Shard : Type 0
Shard = List (Bytes × CircuitBreaker)

pub record ShardedBreakers : Type 0 where
  pub shards : ℕ → Shard
  pub total : ℤ

unfoldable pub new_sharded_breakers : ShardedBreakers
new_sharded_breakers = record { shards = λ _. []; total = pos 0 }

-- The loop of `getShard` over the bytes of the key, in uint32.
unfoldable pub hash_from : ℕ → Bytes → ℕ
hash_from hash [] = hash
hash_from hash (c ∷ cs) = hash_from ((hash * 31 + c) % 2 ^ 32) cs

unfoldable pub get_shard : Bytes → ℕ
unfolding hash_from
get_shard key = hash_from 0 key % shard_count

unfoldable pub get : Bytes → ShardedBreakers → Option CircuitBreaker
get key sb = lookup key (sb.shards (get_shard key))

abbrev pub set_shard : (ℕ → Shard) → ℕ → Shard → ℕ → Shard
set_shard f i shard j = if i == j then shard else f j

-- The breaker under a key, replaced.
unfoldable pub put : Bytes → CircuitBreaker → ShardedBreakers → ShardedBreakers
put key cb sb =
    let i = get_shard key in
    record sb { shards = set_shard sb.shards i (insert key cb (sb.shards i)) }

-- The message, which spells out the limit and the key, is left out.
abbrev pub err_breaker_limit : ProviderError
err_breaker_limit = breaker_error "CIRCUIT_BREAKER_LIMIT" ""

pub data Found : Type 0 where
  found : CircuitBreaker → Found
  refused : ProviderError → Found

unfoldable pub get_or_create :
    Bytes → CircuitBreaker → ℤ → ShardedBreakers → ShardedBreakers × Found
get_or_create key created max_breakers sb = elim (get key sb) [
  | some cb ↦ (sb, found cb)
  | none ↦
      let counted = record sb { total = inc64 sb.total } in
      if ltb_ℤ (pos 0) max_breakers && ltb_ℤ max_breakers counted.total
      then (record counted { total = dec64 counted.total }, refused err_breaker_limit)
      else (put key created counted, found created)
]
