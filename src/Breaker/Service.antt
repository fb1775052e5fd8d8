-- ===== src/Breaker/Service.antt =====
-- internal/llm/circuitbreaker/middleware.go: the middleware over a sequence of requests and resets.
use go_judgy.Prelude.{
  ℕ, ◌-◌, ◌≤◌, ◌<◌, ◌≡◌, ◌≢◌, refl, sym, ap, subst, ◌∙◌, inl, inr, Bool, none, some, List, [], ◌∷◌,
  arith, Option-cases, Bool-cases,
}
use mathlib.Core.Option.{get_or}
use native.Mathlib.Decide.{dec_lt}
use go_judgy.Prelude.Int.{ℤ, pos, max_int64}
use go_judgy.Prelude.Bytes.{Bytes, beq, beq→eq}
use go_judgy.Errors.Types.{provider_error}
use go_judgy.Transport.{Request, Context, Handler}
use go_judgy.Breaker.State.{state_open, CircuitBreaker, Config}
use go_judgy.Breaker.Machine.{new_circuit_breaker, allow, err_circuit_open}
use go_judgy.Breaker.Invariant.{
  IsSound, IsValid, reset as reset_call, step, step-IsValid, new-IsValid,
}
use go_judgy.Breaker.Recovery.{IsWaiting, allow_open_window}
use go_judgy.Breaker.Sharded.{
  ShardedBreakers, new_sharded_breakers, get, put, Found, found, refused,
}
use go_judgy.Breaker.Table.{
  breaker_count, IsBounded, new-IsBounded, get-put_self, get-put_ne, put_old-IsBounded,
  put_new-IsBounded, get_or_create-old, get_or_create-full, get_or_create-new, count_one,
  get-count_one,
}
use go_judgy.Breaker.Middleware.{
  BreakerMiddleware, Turn, build_key, breaker_limit, get_or_create_breaker, after_allow,
  after_lookup, through_breaker, handle, reset, new_middleware, get_state,
}
use go_judgy.Breaker.Protection.{through_breaker-IsValid}

-- Every breaker of the table is valid.
abbrev pub AllValid : ShardedBreakers → Type 0
AllValid sb = (key : Bytes) (cb : CircuitBreaker) → get key sb ≡ some cb → IsValid cb

pub record IsGuarded (m : ℕ) (c : BreakerMiddleware) : Type 0 where
  pub sound : IsSound c.config
  pub positive : 0 < m
  pub small : m < max_int64
  pub limit : breaker_limit c.config ≡ pos m
  pub bounded : IsBounded m c.breakers
  pub valid : AllValid c.breakers

put-AllValid :
    (key : Bytes) (cb : CircuitBreaker) (sb : ShardedBreakers)
    → IsValid cb
    → AllValid sb
    → AllValid (put key cb sb)
put-AllValid key cb sb v all j found_cb e = elim (Bool-cases (beq key j)) [
  | inl same ↦
      let moved = ap (λ k. get k (put key cb sb)) (beq→eq key j same) in
      let stored : some cb ≡ some found_cb = sym (get-put_self key cb sb) ∙ moved ∙ e in
      let equal : cb ≡ found_cb = cc in subst IsValid equal v
  | inr other ↦ all j found_cb (sym (get-put_ne j key cb sb other) ∙ e)
]

-- What the middleware finds for a key: its own breaker or a new one, in a table that is still in
-- order; or a refusal.
abbrev Finds : ℕ → Bytes → ShardedBreakers × Found → Type 0
Finds m key (sb, found cb) = (IsBounded m sb) × (AllValid sb) × (get key sb ≡ some cb)
Finds m key (sb, refused e) = (IsBounded m sb) × (AllValid sb)

get_or_create-Finds :
    (m : ℕ) (key : Bytes) (turn : Turn) (c : BreakerMiddleware)
    → IsGuarded m c
    → Finds m key (get_or_create_breaker key turn c)
unfolding get_or_create_breaker
get_or_create-Finds m key turn c g =
    let sb = c.breakers in
    let created = new_circuit_breaker c.config turn.created_window turn.created_now in
    let fresh = new-IsValid c.config turn.created_window turn.created_now g.sound in
    rw (g.limit) (elim (Option-cases (get key sb)) [
      | inr (old, e) ↦ rw (get_or_create-old m key created old sb e) (g.bounded, g.valid, e)
      | inl e ↦ elim (dec_lt (breaker_count sb) m) [
        | no full ↦
            rw (get_or_create-full m key created sb g.positive g.small e g.bounded (omega arith))
              (g.bounded, g.valid)
        | yes room ↦ rw (get_or_create-new m key created sb g.positive g.small e g.bounded room) (
          put_new-IsBounded m key created sb g.small e g.bounded room,
          put-AllValid key created (count_one sb) fresh
              (λ j cb p. g.valid j cb (sym (get-count_one j sb) ∙ p)),
          get-put_self key created (count_one sb),
        )
      ]
    ])

new-empty : (key : Bytes) (cb : CircuitBreaker) → get key new_sharded_breakers ≢ some cb
unfolding get new_sharded_breakers
new-empty key cb e = cc

module _ {W : Type 0} (next : Handler W) (m : ℕ) where
  after_lookup-IsGuarded :
      (c : BreakerMiddleware) (turn : Turn) (ctx : Context) (req : Request) (w : W)
      (sb : ShardedBreakers) (result : Found)
      → IsGuarded m c
      → Finds m (build_key req) (sb, result)
      → IsGuarded m (after_lookup c turn next ctx req w sb result).0
  unfolding after_lookup
  after_lookup-IsGuarded c turn ctx req w sb (refused e) g (b, v) = record {
    sound = g.sound;
    positive = g.positive;
    small = g.small;
    limit = g.limit;
    bounded = b;
    valid = v;
  }
  after_lookup-IsGuarded c turn ctx req w sb (found cb) g (b, v, e) =
      let key = build_key req in
      let kept = through_breaker-IsValid c turn next ctx req w cb (v key cb e) in
      record {
        sound = g.sound;
        positive = g.positive;
        small = g.small;
        limit = g.limit;
        bounded = put_old-IsBounded m key cb _ sb e b;
        valid = put-AllValid key _ sb kept v;
      }

  handle-IsGuarded :
      (c : BreakerMiddleware) (turn : Turn) (ctx : Context) (req : Request) (w : W)
      → IsGuarded m c
      → IsGuarded m (handle c turn next ctx req w).0
  unfolding handle
  handle-IsGuarded c turn ctx req w g =
      after_lookup-IsGuarded c turn ctx req w _ _ g (get_or_create-Finds m (build_key req) turn c g)

  -- `Reset` on a middleware, which changes nothing for an unknown key.
  reset-IsGuarded :
      (key : Bytes) (now : ℤ) (c : BreakerMiddleware)
      → IsGuarded m c
      → IsGuarded m (get_or (reset key now c) c)
  unfolding reset step
  reset-IsGuarded key now c g = elim (Option-cases (get key c.breakers)) [
    | inl e ↦ rw (e, reset) g
    | inr (cb, e) ↦
        let valid = step-IsValid cb (reset_call now) (g.valid key cb e) in
        rw (e, reset)
          (record {
            sound = g.sound;
            positive = g.positive;
            small = g.small;
            limit = g.limit;
            bounded = put_old-IsBounded m key cb _ c.breakers e g.bounded;
            valid = put-AllValid key _ c.breakers valid g.valid;
          })
  ]

-- A request, or a call of `Reset`.
pub data Act : Type 0 where
  request : Turn → Context → Request → Act
  reset_key : Bytes → ℤ → Act

unfoldable pub serve :
    {W : Type 0} → Handler W → BreakerMiddleware → W → List Act → BreakerMiddleware × W
serve next c w [] = (c, w)
serve next c w (request turn ctx req ∷ acts) =
    let (c', w', _) = handle c turn next ctx req w in serve next c' w' acts
serve next c w (reset_key key now ∷ acts) = serve next (get_or (reset key now c) c) w acts

pub serve-IsGuarded :
    {W : Type 0} (next : Handler W) (m : ℕ) (c : BreakerMiddleware) (w : W) (acts : List Act)
    → IsGuarded m c
    → IsGuarded m (serve next c w acts).0
unfolding serve
serve-IsGuarded next m c w [] g = g
serve-IsGuarded next m c w (request turn ctx req ∷ acts) g =
    let (c', w', _) = handle c turn next ctx req w in
    serve-IsGuarded next m c' w' acts (handle-IsGuarded next m c turn ctx req w g)
serve-IsGuarded next m c w (reset_key key now ∷ acts) g =
    serve-IsGuarded next m (get_or (reset key now c) c) w acts (reset-IsGuarded next m key now c g)

pub new-IsGuarded :
    (cfg : Config) (with_redis : Bool) (m : ℕ)
    → IsSound cfg
    → 0 < m
    → m < max_int64
    → breaker_limit cfg ≡ pos m
    → IsGuarded m (new_middleware cfg with_redis)
unfolding new_middleware
new-IsGuarded cfg with_redis m s p l e = record {
  sound = s;
  positive = p;
  small = l;
  limit = e;
  bounded = new-IsBounded m;
  valid = λ key cb found_cb. absurd (new-empty key cb found_cb);
}

-- From a new middleware whose thresholds and number of probes are positive int32 values and whose
-- limit m lies between 1 and 2 ^ 63 - 2, after any requests and resets, whatever the handler behind
-- it does: there are at most m breakers, the counter `total` is their number, and every breaker
-- satisfies `IsValid`.
pub serve-new-IsGuarded :
    {W : Type 0} (next : Handler W) (cfg : Config) (with_redis : Bool) (m : ℕ) (w : W)
    (acts : List Act)
    → IsSound cfg
    → 0 < m
    → m < max_int64
    → breaker_limit cfg ≡ pos m
    → let table = (serve next (new_middleware cfg with_redis) w acts).0.breakers in
      (breaker_count table ≤ m) × (table.total ≡ pos (breaker_count table)) × AllValid table
serve-new-IsGuarded next cfg with_redis m w acts s p l e =
    let g = serve-IsGuarded next m _ w acts (new-IsGuarded cfg with_redis m s p l e) in
    (g.bounded.capped, g.bounded.counted, g.valid)

blocked :
    {W : Type 0} (c : BreakerMiddleware) (turn : Turn) (next : Handler W) (ctx : Context)
    (req : Request) (w : W) (cb : CircuitBreaker)
    → (allow turn.asked cb).2 ≡ some err_circuit_open
    → through_breaker c turn next ctx req w cb
      ≡ ((allow turn.asked cb).0, w, (none, some (provider_error err_circuit_open)))
unfolding through_breaker after_allow
blocked c turn next ctx req w cb e = rw (e, after_allow)

get_state-put :
    (key : Bytes) (cb : CircuitBreaker) (c : BreakerMiddleware) (table : ShardedBreakers)
    → get_state key (record c { breakers = put key cb table }) ≡ some cb.state
unfolding get_state
get_state-put key cb c table = rw (get-put_self key cb table, get_state)

-- While the breaker of a request is open and its timeout t is not over at the time n of the request
-- (its last failure was at l, n - l ≤ t), the request is answered with CIRCUIT_OPEN, the handler
-- behind is not called (its world w stays as it was, whatever handler it is), and the breaker stays
-- open.
pub open_breaker_shields :
    {W : Type 0} (m : ℕ) (c : BreakerMiddleware) (turn : Turn) (next : Handler W) (ctx : Context)
    (req : Request) (w : W) (cb : CircuitBreaker) (l n t : ℕ)
    → IsGuarded m c
    → get (build_key req) c.breakers ≡ some cb
    → IsWaiting turn.asked cb l n t
    → n - l ≤ t
    → let (after, w', reply) = handle c turn next ctx req w in
      (w' ≡ w)
      × (reply ≡ (none, some (provider_error err_circuit_open)))
      × (get_state (build_key req) after ≡ some state_open)
unfolding handle after_lookup get_or_create_breaker
open_breaker_shields m c turn next ctx req w cb l n t g e wait early =
    let key = build_key req in
    let created = new_circuit_breaker c.config turn.created_window turn.created_now in
    let (stays, _, refusal) =
      (allow_open_window turn.asked cb l n t wait (g.valid key cb e)).0 early in
    rw
      (
        g.limit,
        get_or_create-old m key created cb c.breakers e,
        blocked c turn next ctx req w cb refusal,
      )
      (refl, refl, get_state-put key (allow turn.asked cb).0 c c.breakers ∙ ap some stays)
