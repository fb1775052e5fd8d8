-- ===== src/Events/Emit.antt =====
-- pkg/activity/base.go and pkg/events/envelope.go: the emission of an event. The sink is a parameter;
-- whether the context ends during the wait before the second attempt is an argument.
use go_judgy.Prelude.{
  ℕ, zero, suc, ◌+◌, Bool, true, false, Option, none, some, List, [], ◌∷◌, ◌==◌, if◌then◌else◌, ◌≡◌,
  refl,
}
use go_judgy.Prelude.Int.{ℤ}
use go_judgy.Prelude.Bytes.{Bytes}
use go_judgy.Errors.Types.{Err}

-- `Envelope` of pkg/events.
pub record Envelope : Type 0 where
  pub id : Bytes
  pub type : Bytes
  pub source : Bytes
  pub version : Bytes
  pub timestamp : ℤ
  pub idempotency_key : Bytes
  pub tenant_id : Bytes
  pub workflow_id : Bytes
  pub run_id : Bytes
  pub payload : Bytes

-- `EventSink.Append`.
abbrev pub EventSink : Type 0 → Type 0
EventSink W = Envelope → W → W × Option Err

-- `NoOpEventSink`.
unfoldable no_op : {W : Type 0} → EventSink W
no_op e w = (w, none)

-- What is logged at the end; `skipped` without a sink.
pub data Emission : Type 0 where
  skipped emitted cancelled : Emission
  failed : Option Err → Emission

abbrev pub max_attempts : ℕ
max_attempts = 2

module _ {W : Type 0} (append : EventSink W) (cancels : Bool) (e : Envelope) where
  -- The loop from an attempt on, with so many left and the last error.
  unfoldable attempt_from : ℕ → ℕ → Option Err → W → W × Emission
  attempt_from zero attempt last w = (w, failed last)
  attempt_from (suc left) attempt last w =
      let tried = append e w in
      let more = attempt_from left (attempt + 1) tried.1 tried.0 in
      let answered : W × Emission = elim tried.1 [ none ↦ (tried.0, emitted) | some err ↦ more ] in
      if attempt == 0 then answered else (if cancels then (w, cancelled) else answered)

-- `EmitEventSafe`.
unfoldable pub emit_event_safe :
    {W : Type 0} → Option (EventSink W) → Bool → Envelope → W → W × Emission
unfolding attempt_from
emit_event_safe none cancels e w = (w, skipped)
emit_event_safe (some append) cancels e w = attempt_from append cancels e max_attempts 0 none w

-- A sink that keeps the keys it has seen and fails as a schedule says.
abbrev recording : EventSink (List Bytes × List (Option Err))
recording e (seen, []) = ((e.idempotency_key ∷ seen, []), none)
recording e (seen, none ∷ rest) = ((e.idempotency_key ∷ seen, rest), none)
recording e (seen, some err ∷ rest) = ((seen, rest), some err)

-- The keys after an emission that kept an event only if it was reported.
abbrev pub kept : Envelope → List Bytes → Emission → List Bytes
kept e seen emitted = e.idempotency_key ∷ seen
kept e seen skipped = seen
kept e seen cancelled = seen
kept e seen (failed last) = seen

-- With a sink that fails as a schedule says, an event is kept exactly once if it is reported as
-- emitted, and not at all otherwise, whatever the schedule and the context do.
emit_event_safe-once :
    (schedule : List (Option Err)) (cancels : Bool) (e : Envelope) (seen : List Bytes)
    → (emit_event_safe (some recording) cancels e (seen, schedule)).0.0
      ≡ kept e seen (emit_event_safe (some recording) cancels e (seen, schedule)).1
unfolding emit_event_safe
emit_event_safe-once [] cancels e seen = refl
emit_event_safe-once (none ∷ rest) cancels e seen = refl
emit_event_safe-once (some err ∷ rest) true e seen = refl
emit_event_safe-once (some err ∷ []) false e seen = refl
emit_event_safe-once (some err ∷ none ∷ rest) false e seen = refl
emit_event_safe-once (some err ∷ some err' ∷ rest) false e seen = refl
