-- ===== src/Business/Drift.antt =====
-- internal/llm/business/pricing.go: the drift between estimated and actual costs.
use go_judgy.Prelude.{Option, none, some, List, ◌++◌, if◌then◌else◌}
use go_judgy.Prelude.Int.{ℤ, pos, ◌+ℤ◌, ◌-ℤ◌, ltb_ℤ, int64, inc64, is_zero_ℤ}
use go_judgy.Prelude.Bytes.{Bytes, bytes, lookup, insert}
use go_judgy.Floats.{Floats}
use go_judgy.Business.Registry.{DriftObservation, InMemoryPricingRegistry}

-- In `int64`: the smallest number is its own absolute value.
unfoldable pub abs : ℤ → ℤ
abs n = if ltb_ℤ n (pos 0) then int64 (pos 0 -ℤ n) else n

abbrev pub new_observation : Bytes → Bytes → DriftObservation
new_observation provider model = record {
  provider = provider;
  model = model;
  estimated_sum = pos 0;
  actual_sum = pos 0;
  observation_count = pos 0;
  max_drift = pos 0;
  last_updated = pos 0;
}

-- The update of an observation.
unfoldable pub observe : ℤ → ℤ → ℤ → DriftObservation → DriftObservation
unfolding abs
observe now estimated actual obs =
    let drift = int64 (actual -ℤ estimated) in
    record obs {
      estimated_sum = int64 (obs.estimated_sum +ℤ estimated);
      actual_sum = int64 (obs.actual_sum +ℤ actual);
      observation_count = inc64 obs.observation_count;
      max_drift = if ltb_ℤ (abs obs.max_drift) (abs drift) then drift else obs.max_drift;
      last_updated = now;
    }

abbrev observation : Bytes → Bytes → Option DriftObservation → DriftObservation
observation provider model none = new_observation provider model
observation provider model (some obs) = obs

-- `RecordDrift` on metrics that are not nil.
unfoldable pub record_drift :
    ℤ → Bytes → Bytes → ℤ → ℤ → List (Bytes × DriftObservation) → List (Bytes × DriftObservation)
unfolding observe
record_drift now provider model estimated actual m =
    let k = provider ++ (bytes "/" ++ model) in
    insert k (observe now estimated actual (observation provider model (lookup k m))) m

unfoldable pub record_cost_drift :
    ℤ → Bytes → Bytes → ℤ → ℤ → InMemoryPricingRegistry → InMemoryPricingRegistry
unfolding record_drift
record_cost_drift now provider model estimated actual r = elim r.drift_metrics [
  | none ↦ r
  | some m ↦ record r { drift_metrics = some (record_drift now provider model estimated actual m) }
]

module _ (F : Floats) where
  open F use {Float, zero_float, div_float, mul_float, of_int}

  -- The quotient of an observation, in percent.
  unfoldable pub percentage : Option DriftObservation → Float
  percentage none = zero_float
  percentage (some obs) =
      if is_zero_ℤ obs.estimated_sum
      then zero_float
      else mul_float
          (div_float (of_int (int64 (obs.actual_sum -ℤ obs.estimated_sum)))
            (of_int obs.estimated_sum))
          (of_int (pos 100))

  -- `GetDriftPercentage`.
  unfoldable pub get_drift_percentage : Bytes → Bytes → List (Bytes × DriftObservation) → Float
  unfolding percentage
  get_drift_percentage provider model m = percentage (lookup (provider ++ (bytes "/" ++ model)) m)

  unfoldable pub get_drift_metrics : Bytes → Bytes → InMemoryPricingRegistry → Float
  unfolding get_drift_percentage
  get_drift_metrics provider model r = elim r.drift_metrics [
    | none ↦ zero_float
    | some m ↦ get_drift_percentage provider model m
  ]
