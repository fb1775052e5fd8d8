-- ===== src/Breaker/Table.antt =====
-- internal/llm/circuitbreaker/sharded.go: the table behaves as one map with a bound on its size.
use go_judgy.Prelude.{
  ℕ, zero, suc, ◌+◌, ◌≤◌, ◌<◌, ◌≡◌, refl, sym, ap, ◌∙◌, inl, inr, false, Option, none, some, [],
  ◌∷◌, arith, length, Option-cases,
}
use go_judgy.Prelude.Int.{pos, inc64, inc64-pos, dec64, max_int64}
use go_judgy.Prelude.Bytes.{Bytes, beq, lookup, insert, lookup-insert_self, lookup-insert_ne}
use go_judgy.Breaker.State.{CircuitBreaker}
use native.Mathlib.Decide.{dec_lt}
use go_judgy.Breaker.Sharded.{
  shard_count, Shard, ShardedBreakers, new_sharded_breakers, get_shard, get, set_shard, put, found,
  refused, get_or_create, err_breaker_limit,
}

get_shard-lt : (key : Bytes) → get_shard key < shard_count
unfolding get_shard
get_shard-lt key = omega arith

pub get-put_self :
    (key : Bytes) (cb : CircuitBreaker) (sb : ShardedBreakers) → get key (put key cb sb) ≡ some cb
unfolding get put
get-put_self key cb sb = ground (arith, lookup-insert_self key cb (sb.shards (get_shard key)))

pub get-put_ne :
    (j key : Bytes) (cb : CircuitBreaker) (sb : ShardedBreakers)
    → beq key j ≡ false
    → get j (put key cb sb) ≡ get j sb
unfolding get put
get-put_ne j key cb sb h = ground (arith, lookup-insert_ne j key cb (sb.shards (get_shard key)) h)

-- The number of breakers in the first n shards.
pub size : ℕ → (ℕ → Shard) → ℕ
size zero f = 0
size (suc n) f = size n f + length (f n)

-- How many entries a write adds.
abbrev added : Option CircuitBreaker → ℕ
added none = 1
added (some _) = 0

length-insert :
    (k : Bytes) (v : CircuitBreaker) (m : Shard)
    → length (insert k v m) ≡ length m + added (lookup k m)
length-insert k v [] = refl
length-insert k v ((j, w) ∷ m) = ground (arith, length-insert k v m)

size-set_shard_of_le :
    (n i : ℕ) (f : ℕ → Shard) (s : Shard) → n ≤ i → size n (set_shard f i s) ≡ size n f
unfolding size
size-set_shard_of_le zero i f s h = refl
size-set_shard_of_le (suc n) i f s h = ground (arith, size-set_shard_of_le n i f s)

size-set_shard :
    (n i : ℕ) (f : ℕ → Shard) (s : Shard)
    → i < n
    → size n (set_shard f i s) + length (f i) ≡ size n f + length s
unfolding size
size-set_shard zero i f s h = absurd (omega arith)
size-set_shard (suc n) i f s h = elim (dec_lt i n) [
  | yes below ↦ ground (arith, size-set_shard n i f s below)
  | no last ↦ ground (arith, size-set_shard_of_le n i f s)
]

-- The whole table: the count that the code keeps is the number of breakers.
abbrev pub breaker_count : ShardedBreakers → ℕ
breaker_count sb = size shard_count sb.shards

size-put :
    (key : Bytes) (cb : CircuitBreaker) (sb : ShardedBreakers)
    → breaker_count (put key cb sb) ≡ breaker_count sb + added (get key sb)
unfolding put get
size-put key cb sb =
    let i = get_shard key in
    let grown = length-insert key cb (sb.shards i) in
    let moved =
      size-set_shard shard_count i sb.shards (insert key cb (sb.shards i)) (get_shard-lt key) in
    omega (arith, grown, moved)

-- The count that the code keeps is the number of breakers, and m bounds it.
pub record IsBounded (m : ℕ) (sb : ShardedBreakers) : Type 0 where
  pub counted : sb.total ≡ pos (breaker_count sb)
  pub capped : breaker_count sb ≤ m

pub new-IsBounded : (m : ℕ) → IsBounded m new_sharded_breakers
unfolding new_sharded_breakers size
new-IsBounded m = ground arith

total-put :
    (key : Bytes) (cb : CircuitBreaker) (sb : ShardedBreakers) → (put key cb sb).total ≡ sb.total
unfolding put
total-put key cb sb = refl

pub put_old-IsBounded :
    (m : ℕ) (key : Bytes) (old cb : CircuitBreaker) (sb : ShardedBreakers)
    → get key sb ≡ some old
    → IsBounded m sb
    → IsBounded m (put key cb sb)
put_old-IsBounded m key old cb sb e h =
    let same : breaker_count (put key cb sb) ≡ breaker_count sb =
      size-put key cb sb ∙ rw e (omega arith) in
    record {
      counted = total-put key cb sb ∙ h.counted ∙ ap pos (sym same);
      capped = omega (arith, h.capped);
    }

dec64-inc64 : (n : ℕ) → n < max_int64 → dec64 (inc64 (pos n)) ≡ pos n
unfolding inc64 dec64
dec64-inc64 n h = ground arith

pub get_or_create-old :
    (m : ℕ) (key : Bytes) (created cb : CircuitBreaker) (sb : ShardedBreakers)
    → get key sb ≡ some cb
    → get_or_create key created (pos m) sb ≡ (sb, found cb)
unfolding get_or_create
get_or_create-old m key created cb sb e = rw (e, get_or_create)

-- The table with one more counted.
abbrev pub count_one : ShardedBreakers → ShardedBreakers
count_one sb = record sb { total = inc64 sb.total }

pub get_or_create-full :
    (m : ℕ) (key : Bytes) (created : CircuitBreaker) (sb : ShardedBreakers)
    → 0 < m
    → m < max_int64
    → get key sb ≡ none
    → IsBounded m sb
    → m ≤ breaker_count sb
    → get_or_create key created (pos m) sb ≡ (sb, refused err_breaker_limit)
unfolding get_or_create
get_or_create-full m key created sb m0 m1 e h full =
    let n = breaker_count sb in
    let up : inc64 sb.total ≡ pos (n + 1) =
      ap inc64 h.counted ∙ inc64-pos n (omega (arith, h.capped)) in
    let back : dec64 (inc64 sb.total) ≡ sb.total =
      ap (λ t. dec64 (inc64 t)) h.counted
      ∙ dec64-inc64 n (omega (arith, h.capped))
      ∙ sym h.counted in
    rw (e, get_or_create) (ground (arith, up, back))

pub get_or_create-new :
    (m : ℕ) (key : Bytes) (created : CircuitBreaker) (sb : ShardedBreakers)
    → 0 < m
    → m < max_int64
    → get key sb ≡ none
    → IsBounded m sb
    → breaker_count sb < m
    → get_or_create key created (pos m) sb ≡ (put key created (count_one sb), found created)
unfolding get_or_create
get_or_create-new m key created sb m0 m1 e h room =
    let n = breaker_count sb in
    let up : inc64 sb.total ≡ pos (n + 1) =
      ap inc64 h.counted ∙ inc64-pos n (omega (arith, h.capped)) in
    rw (e, get_or_create) (ground (arith, up))

-- The count is not read by `get`.
pub get-count_one : (key : Bytes) (sb : ShardedBreakers) → get key (count_one sb) ≡ get key sb
unfolding get
get-count_one key sb = refl

put_new-count :
    (key : Bytes) (created : CircuitBreaker) (sb : ShardedBreakers)
    → get key sb ≡ none
    → breaker_count (put key created (count_one sb)) ≡ breaker_count sb + 1
put_new-count key created sb e =
    size-put key created (count_one sb) ∙ rw (get-count_one key sb, e) refl

pub put_new-IsBounded :
    (m : ℕ) (key : Bytes) (created : CircuitBreaker) (sb : ShardedBreakers)
    → m < max_int64
    → get key sb ≡ none
    → IsBounded m sb
    → breaker_count sb < m
    → IsBounded m (put key created (count_one sb))
put_new-IsBounded m key created sb m1 e h room =
    let n = breaker_count sb in
    let grown = put_new-count key created sb e in
    record {
      counted =
          total-put key created (count_one sb)
          ∙ ap inc64 h.counted
          ∙ inc64-pos n (omega arith)
          ∙ ap pos (sym grown);
      capped = omega (arith, grown);
    }

-- With a limit 0 < m < 2 ^ 63 - 1 on a table within the limit, whose counter is the number of its
-- breakers: `getOrCreate` returns the breaker of a known key and changes nothing; for a new key in
-- a full table it refuses and changes nothing; with room it stores the created breaker under the
-- key alone, and the number grows by one. The table stays within the limit, its counter exact.
pub get_or_create_lem :
    (m : ℕ) (key : Bytes) (created : CircuitBreaker) (sb : ShardedBreakers)
    → 0 < m
    → m < max_int64
    → IsBounded m sb
    → let (after, result) = get_or_create key created (pos m) sb in
      ((cb : CircuitBreaker) → get key sb ≡ some cb → (after ≡ sb) × (result ≡ found cb))
      × (get key sb ≡ none
          → m ≤ breaker_count sb
          → (after ≡ sb) × (result ≡ refused err_breaker_limit))
      × (get key sb ≡ none
          → breaker_count sb < m
          → (result ≡ found created)
            × (get key after ≡ some created)
            × ((j : Bytes) → beq key j ≡ false → get j after ≡ get j sb)
            × (breaker_count after ≡ breaker_count sb + 1))
      × IsBounded m after
get_or_create_lem m key created sb m0 m1 h = elim (Option-cases (get key sb)) [
  | inr (old, e) ↦
      rw (get_or_create-old m key created old sb e) (λ cb f. (refl, cc), λ f l. cc, λ f l. cc, h)
  | inl e ↦ elim (dec_lt (breaker_count sb) m) [
    | no full ↦
        rw (get_or_create-full m key created sb m0 m1 e h (omega arith))
          (λ cb f. cc, λ f l. (refl, refl), λ f l. absurd (omega arith), h)
    | yes room ↦ rw (get_or_create-new m key created sb m0 m1 e h room) (
      λ cb f. cc,
      λ f l. absurd (omega arith),
      λ f l. (
        refl,
        get-put_self key created (count_one sb),
        λ j ne. get-put_ne j key created (count_one sb) ne ∙ get-count_one j sb,
        put_new-count key created sb e,
      ),
      put_new-IsBounded m key created sb m1 e h room,
    )
  ]
]
