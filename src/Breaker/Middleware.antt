-- ===== src/Breaker/Middleware.antt =====
-- internal/llm/circuitbreaker/middleware.go: the middleware that puts a breaker before the calls of
-- each provider, model and region. Logging is left out.
use go_judgy.Prelude.{
  Bool, true, false, not, ◌&&◌, Option, none, some, [], ◌∷◌, ◌++◌, if◌then◌else◌,
}
use go_judgy.Prelude.Int.{ℤ, pos, inc64}
use go_judgy.Prelude.Bytes.{Bytes, bytes, lookup}
use go_judgy.Errors.Types.{ProviderError, provider_error}
use go_judgy.Transport.{Request, half_open_probe_key, Context, Reply, Handler}
use go_judgy.Breaker.State.{CircuitState, state_closed, CircuitBreaker, Config, is_zero}
use go_judgy.Breaker.Machine.{
  Readings, breaker_error, CircuitResult, new_circuit_breaker, allow, run_cleanup, transition_to,
  record_success, record_failure,
}
use go_judgy.Breaker.Sharded.{
  ShardedBreakers, new_sharded_breakers, get, put, Found, found, refused, get_or_create,
}

pub record BreakerMiddleware : Type 0 where
  pub breakers : ShardedBreakers
  pub config : Config
  pub probe_guard_enabled : Bool

-- `NewCircuitBreakerMiddlewareWithRedis`; `with_redis` tells whether a client is given.
unfoldable pub new_middleware : Config → Bool → BreakerMiddleware
new_middleware cfg with_redis = record {
  breakers = new_sharded_breakers;
  config = cfg;
  probe_guard_enabled = with_redis;
}

-- What one request meets: the clock at the creation of a breaker, at `allow` and at the end of the
-- request, and what Redis answers to SETNX (`none` for an error).
pub record Turn : Type 0 where
  pub created_window : ℤ
  pub created_now : ℤ
  pub asked : Readings
  pub ended : Readings
  pub set_nx : Option Bool

-- The part of `buildKey` after the model: a region that is there and not empty.
abbrev pub region_part : Option Bytes → Bytes
region_part none = []
region_part (some []) = []
region_part (some (c ∷ cs)) = bytes ":" ++ (c ∷ cs)

unfoldable pub build_key : Request → Bytes
build_key req =
    req.provider ++ (bytes ":" ++ (req.model ++ region_part (lookup (bytes "region") req.metadata)))

abbrev pub breaker_limit : Config → ℤ
breaker_limit cfg = if is_zero cfg.max_breakers then pos 1000 else cfg.max_breakers

unfoldable pub get_or_create_breaker : Bytes → Turn → BreakerMiddleware → ShardedBreakers × Found
get_or_create_breaker key turn c =
    get_or_create key (new_circuit_breaker c.config turn.created_window turn.created_now)
      (breaker_limit c.config) c.breakers

-- `acquireProbeGuard`: without Redis, or when Redis fails, the probe goes ahead.
unfoldable pub acquire_probe_guard : Turn → BreakerMiddleware → Bool
acquire_probe_guard turn c =
    if c.probe_guard_enabled then elim turn.set_nx [ none ↦ true | some ok ↦ ok ] else true

abbrev pub err_probe_in_progress : ProviderError
err_probe_in_progress = breaker_error "PROBE_IN_PROGRESS" "another instance is testing the provider"

abbrev pub count_conflict : CircuitBreaker → CircuitBreaker
count_conflict cb =
    let m = cb.metrics in
    record cb { metrics = record m { probe_guard_conflicts = inc64 m.probe_guard_conflicts } }

-- The record of how `next.Handle` ended, and the reply that is passed on.
unfoldable pub finish : Turn → CircuitBreaker → Reply → CircuitBreaker × Reply
finish turn cb (resp, some e) = (record_failure turn.ended cb, (none, some e))
finish turn cb (resp, none) = (record_success turn.ended cb, (resp, none))

abbrev pub request_context : Bool → Context → Context
request_context true ctx = half_open_probe_key ∷ ctx
request_context false ctx = ctx

module _ {W : Type 0} where
  -- The handler from the result of `allow` on, with the deferred cleanup.
  unfoldable pub after_allow :
      BreakerMiddleware
      → Turn
      → Handler W
      → Context
      → Request
      → W
      → CircuitBreaker
      → CircuitResult
      → Option ProviderError
      → CircuitBreaker × W × Reply
  after_allow c turn next ctx req w asked result (some err) =
      (asked, w, (none, some (provider_error err)))
  after_allow c turn next ctx req w asked result none =
      if not result.allowed
      then (asked, w, (none, none))
      else if result.is_half_open_probe && c.probe_guard_enabled && not (acquire_probe_guard turn c)
      then (
        run_cleanup result.cleanup (count_conflict asked),
        w,
        (none, some (provider_error err_probe_in_progress)),
      )
      else let (w', reply) = next (request_context result.is_half_open_probe ctx) req w in
        let (ended, passed) = finish turn asked reply in
        (run_cleanup result.cleanup ended, w', passed)

  unfoldable pub through_breaker :
      BreakerMiddleware
      → Turn
      → Handler W
      → Context
      → Request
      → W
      → CircuitBreaker
      → CircuitBreaker × W × Reply
  through_breaker c turn next ctx req w cb =
      let (asked, result, e) = allow turn.asked cb in
      after_allow c turn next ctx req w asked result e

  -- The handler from the result of `getOrCreateBreaker` on.
  unfoldable pub after_lookup :
      BreakerMiddleware
      → Turn
      → Handler W
      → Context
      → Request
      → W
      → ShardedBreakers
      → Found
      → BreakerMiddleware × W × Reply
  after_lookup c turn next ctx req w table (refused e) =
      (record c { breakers = table }, w, (none, some (provider_error e)))
  after_lookup c turn next ctx req w table (found cb) =
      let (after, w', reply) = through_breaker c turn next ctx req w cb in
      (record c { breakers = put (build_key req) after table }, w', reply)

  -- The whole handler: find or create the breaker, run the request through it, keep its state.
  unfoldable pub handle :
      BreakerMiddleware → Turn → Handler W → Context → Request → W → BreakerMiddleware × W × Reply
  handle c turn next ctx req w =
      let (table, result) = get_or_create_breaker (build_key req) turn c in
      after_lookup c turn next ctx req w table result

-- `GetState`; `none` is ErrCircuitBreakerNotFound.
unfoldable pub get_state : Bytes → BreakerMiddleware → Option CircuitState
get_state key c = elim (get key c.breakers) [ none ↦ none | some cb ↦ some cb.state ]

-- `Reset`; `none` is ErrCircuitBreakerNotFound.
unfoldable pub reset : Bytes → ℤ → BreakerMiddleware → Option BreakerMiddleware
reset key now c = elim (get key c.breakers) [
  | none ↦ none
  | some cb ↦ some (record c { breakers = put key (transition_to state_closed now cb) c.breakers })
]

-- `GetMetrics`.
unfoldable pub get_metrics : Bytes → BreakerMiddleware → Option (ℤ × ℤ × ℤ)
get_metrics key c = elim (get key c.breakers) [
  | none ↦ none
  | some cb ↦
      some (cb.metrics.state_transitions, cb.metrics.requests_allowed, cb.metrics.requests_rejected)
]
