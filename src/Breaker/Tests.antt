-- ===== src/Breaker/Tests.antt =====
-- internal/llm/circuitbreaker: runs on small inputs, and each theorem at an input that meets its
-- hypotheses.
use go_judgy.Prelude.{
  ℕ, ◌+◌, ◌-◌, ◌/◌, ◌≤◌, ◌<◌, ◌≡◌, ◌↔◌, refl, true, false, none, some, List, [], ◌∷◌, arith,
}
use go_judgy.Prelude.Int.{pos, inc32, inc64, dec32, int64, ◌+ℤ◌, ◌-ℤ◌}
use go_judgy.Prelude.Bytes.{Bytes, bytes, beq}
use go_judgy.Errors.Types.{Sentinel, sentinel, provider_error}
use go_judgy.Transport.{Request, op_generation, Handler}
use go_judgy.Breaker.State.{state_open, state_half_open, CircuitBreaker, Config, update_state_time}
use go_judgy.Breaker.Machine.{
  Readings, new_circuit_breaker, allow, allow_in, handle_half_open_probe, err_circuit_open,
  record_failure, failure_in, observe, run_cleanup,
}
use go_judgy.Breaker.Invariant.{Call, ask, fail, IsSound, IsValid, run, run-new-IsValid}
use go_judgy.Breaker.Outcomes.{record_all, HasStreak, IsCounting, open_iff_streak}
use go_judgy.Breaker.Recovery.{DrawsBelow, IsWaiting, IsProbing, allow_open_window}
use go_judgy.Breaker.Accounting.{admitted, refused as refusals, run-new-counts}
use go_judgy.Breaker.Sharded.{
  get, put, get_shard, new_sharded_breakers, get_or_create, found, refused, err_breaker_limit,
}
use go_judgy.Breaker.Table.{breaker_count, IsBounded, new-IsBounded, get_or_create_lem}
use go_judgy.Breaker.Middleware.{
  BreakerMiddleware, Turn, new_middleware, build_key, through_breaker, handle, get_state,
  after_allow, after_lookup, finish, get_or_create_breaker, acquire_probe_guard,
}
use go_judgy.Breaker.Protection.{slots_returned}
use go_judgy.Breaker.Service.{
  AllValid, request, serve, new-IsGuarded, serve-IsGuarded, serve-new-IsGuarded,
  open_breaker_shields,
}

abbrev cfg : Config
cfg = record {
  failure_threshold = pos 1;
  success_threshold = pos 2;
  open_timeout = pos 1000;
  half_open_probes = pos 1;
  probe_timeout = pos 0;
  max_breakers = pos 2;
  adaptive_thresholds = false;
}

abbrev at : ℕ → Readings
at t = record {
  since_now = pos t;
  failure_now = pos t;
  window_now = pos t;
  change_now = pos t;
  int63n = λ _. pos 0;
}

abbrev fresh : CircuitBreaker
fresh = new_circuit_breaker cfg (pos 5) (pos 5)

cfg-IsSound : IsSound cfg
cfg-IsSound = omega arith

run-new-IsValid_example : IsValid (run fresh (fail (at 7) ∷ ask (at 9) ∷ []))
run-new-IsValid_example =
    run-new-IsValid cfg (pos 5) (pos 5) (fail (at 7) ∷ ask (at 9) ∷ []) cfg-IsSound

fresh-IsCounting : IsCounting 1 0 fresh
unfolding new_circuit_breaker
fresh-IsCounting = ground arith

open_iff_streak_example :
    ((record_all fresh ((true, at 6) ∷ (false, at 7) ∷ [])).state ≡ state_open)
    ↔ HasStreak 1 ((true, at 6) ∷ (false, at 7) ∷ [])
open_iff_streak_example =
    open_iff_streak 1 fresh ((true, at 6) ∷ (false, at 7) ∷ []) fresh-IsCounting

-- Open since 7, and half-open with the first probe in flight.
abbrev tripped : CircuitBreaker
tripped = record fresh { state = state_open; last_failure_time = pos 7 }

abbrev probing : CircuitBreaker
probing = record fresh {
  state = state_half_open;
  half_open_probes = pos 1;
  last_failure_time = pos 7;
}

tripped-IsValid : IsValid tripped
unfolding new_circuit_breaker
tripped-IsValid = ground arith

probing-IsValid : IsValid probing
unfolding new_circuit_breaker
probing-IsValid = ground arith

zero_draw : DrawsBelow (λ _. pos 0)
zero_draw n h = omega arith

tripped-IsWaiting : IsWaiting (at 900) tripped 7 900 1000
unfolding new_circuit_breaker
tripped-IsWaiting = record {
  opened = refl;
  last = refl;
  now = refl;
  timeout = refl;
  later = omega arith;
  now_fits = omega arith;
  timeout_fits = omega arith;
  draws = zero_draw;
}

allow_open_window_example :
    let (after, result, e) = allow (at 900) tripped in
    (900 - 7 ≤ 1000
      → (after.state ≡ state_open) × (result.allowed ≡ false) × (e ≡ some err_circuit_open))
    × (1000 + 1000 / 10 < 900 - 7
        → (after.state ≡ state_half_open)
          × (result.is_half_open_probe ≡ true)
          × (e ≡ none)
          × (after.half_open_probes ≡ pos 1))
allow_open_window_example =
    allow_open_window (at 900) tripped 7 900 1000 tripped-IsWaiting tripped-IsValid

probing-IsProbing : IsProbing 2 0 probing
unfolding new_circuit_breaker
probing-IsProbing = ground arith

abbrev short_run : List Call
short_run = ask (at 6) ∷ fail (at 7) ∷ ask (at 9) ∷ []

run-new-counts_example :
    ((run fresh short_run).metrics.requests_allowed ≡ pos (admitted fresh short_run))
    × ((run fresh short_run).metrics.requests_rejected ≡ pos (refusals fresh short_run))
run-new-counts_example = run-new-counts cfg (pos 5) (pos 5) short_run (omega arith)

get_or_create_lem_example :
    let (after, result) = get_or_create (bytes "a:m") fresh (pos 2) new_sharded_breakers in
    ((cb : CircuitBreaker)
      → get (bytes "a:m") new_sharded_breakers ≡ some cb
      → (after ≡ new_sharded_breakers) × (result ≡ found cb))
    × (get (bytes "a:m") new_sharded_breakers ≡ none
        → 2 ≤ breaker_count new_sharded_breakers
        → (after ≡ new_sharded_breakers) × (result ≡ refused err_breaker_limit))
    × (get (bytes "a:m") new_sharded_breakers ≡ none
        → breaker_count new_sharded_breakers < 2
        → (result ≡ found fresh)
          × (get (bytes "a:m") after ≡ some fresh)
          × ((j : Bytes) → beq (bytes "a:m") j ≡ false → get j after ≡ get j new_sharded_breakers)
          × (breaker_count after ≡ breaker_count new_sharded_breakers + 1))
    × IsBounded 2 after
get_or_create_lem_example =
    get_or_create_lem 2 (bytes "a:m") fresh new_sharded_breakers (omega arith) (omega arith)
      (new-IsBounded 2)

abbrev guard : BreakerMiddleware
guard = new_middleware cfg true

abbrev turn_at : ℕ → Turn
turn_at t = record {
  created_window = pos t;
  created_now = pos t;
  asked = at t;
  ended = at t;
  set_nx = some false;
}

abbrev question : Request
question = record {
  operation = op_generation;
  provider = bytes "openai";
  model = bytes "gpt";
  tenant_id = bytes "t";
  question = bytes "q";
  max_tokens = pos 10;
  seed = none;
  system_prompt = [];
  timeout = pos 0;
  idempotency_key = bytes "k";
  trace_id = bytes "x";
  metadata = (bytes "region", bytes "eu") ∷ [];
}

-- A provider that counts the calls and fails.
abbrev down : Handler ℕ
down ctx req n = (n + 1, (none, some (sentinel Sentinel.provider_unavailable)))

abbrev idle : CircuitBreaker
idle = record probing { half_open_probes = pos 0 }

idle-IsValid : IsValid idle
unfolding new_circuit_breaker
idle-IsValid = ground arith

-- Another instance holds the probe guard: the slot is taken and given back.
idle-half_open :
    (through_breaker guard (turn_at 2000) down [] question 0 idle).0.state ≡ state_half_open
unfolding through_breaker after_allow allow allow_in handle_half_open_probe acquire_probe_guard
    run_cleanup inc32 dec32 inc64 new_middleware new_circuit_breaker
idle-half_open = refl

slots_returned_example :
    (through_breaker guard (turn_at 2000) down [] question 0 idle).0.half_open_probes ≡ pos 0
unfolding new_circuit_breaker
slots_returned_example =
    slots_returned guard (turn_at 2000) down [] question 0 idle idle-IsValid idle-half_open

serve-new-IsGuarded_example :
    let table = (serve down guard 0 (request (turn_at 7) [] question ∷ [])).0.breakers in
    (breaker_count table ≤ 2) × (table.total ≡ pos (breaker_count table)) × AllValid table
serve-new-IsGuarded_example =
    serve-new-IsGuarded down cfg true 2 0 (request (turn_at 7) [] question ∷ []) cfg-IsSound
      (omega arith) (omega arith) refl

-- After one failed request the breaker of its key is open.
abbrev after_failure : BreakerMiddleware
after_failure = (serve down guard 0 (request (turn_at 7) [] question ∷ [])).0

abbrev stored : CircuitBreaker
stored = record fresh {
  state = state_open;
  last_failure_time = pos 7;
  metrics = record {
    state_transitions = pos 1;
    requests_allowed = pos 1;
    requests_rejected = pos 0;
    probe_attempts = pos 0;
    probe_successes = pos 0;
    probe_guard_conflicts = pos 0;
    time_in_closed = pos 0;
    time_in_open = pos 0;
    time_in_half_open = pos 0;
    last_state_change = pos 7;
  };
}

after_failure-stored : get (build_key question) after_failure.breakers ≡ some stored
unfolding serve handle after_lookup get_or_create_breaker get_or_create get put get_shard
    new_sharded_breakers through_breaker after_allow finish allow allow_in record_failure failure_in
    observe run_cleanup build_key inc32 dec32 inc64 new_middleware new_circuit_breaker
    update_state_time int64 ◌-ℤ◌ ◌+ℤ◌
after_failure-stored = refl

stored-IsWaiting : IsWaiting (at 900) stored 7 900 1000
unfolding new_circuit_breaker
stored-IsWaiting = record {
  opened = refl;
  last = refl;
  now = refl;
  timeout = refl;
  later = omega arith;
  now_fits = omega arith;
  timeout_fits = omega arith;
  draws = zero_draw;
}

open_breaker_shields_example :
    let (after, calls, reply) = handle after_failure (turn_at 900) down [] question 1 in
    (calls ≡ 1)
    × (reply ≡ (none, some (provider_error err_circuit_open)))
    × (get_state (build_key question) after ≡ some state_open)
open_breaker_shields_example =
    open_breaker_shields 2 after_failure (turn_at 900) down [] question 1 stored 7 900 1000
      (serve-IsGuarded down 2 guard 0 (request (turn_at 7) [] question ∷ [])
        (new-IsGuarded cfg true 2 cfg-IsSound (omega arith) (omega arith) refl))
      after_failure-stored stored-IsWaiting (omega arith)
