-- ===== src/Business/Registry.antt =====
-- internal/llm/business/pricing.go: the registry in memory, its look-ups, and the middleware that
-- prices a response. The registry is behind a mutex that each operation holds throughout, so an
-- operation is one step. `now` is the reading of the clock, and `show_time` is `%v` of a time.
use go_judgy.Prelude.{Bool, false, not, ◌&&◌, Option, none, some, List, [], ◌++◌, if◌then◌else◌}
use go_judgy.Prelude.Int.{ℤ, pos}
use go_judgy.Prelude.Bytes.{Bytes, bytes, is_empty_text, lookup, insert}
use go_judgy.Errors.Types.{ErrorType, Err, pricing_error}
use go_judgy.Transport.{NormalizedUsage, Request, Context, Reply, Handler}
use go_judgy.Business.Pricing.{
  PricingEntry, build_pricing_key, key, is_expired, calculate, default_entries, store_all,
}

pub record DriftObservation : Type 0 where
  pub provider : Bytes
  pub model : Bytes
  pub estimated_sum : ℤ
  pub actual_sum : ℤ
  pub observation_count : ℤ
  pub max_drift : ℤ
  pub last_updated : ℤ

-- `none` for a nil pointer to the metrics.
pub record InMemoryPricingRegistry : Type 0 where
  pub entries : List (Bytes × PricingEntry)
  pub last_updated : ℤ
  pub fail_closed : Bool
  pub drift_metrics : Option (List (Bytes × DriftObservation))

unfoldable pub load_defaults : ℤ → InMemoryPricingRegistry → InMemoryPricingRegistry
load_defaults now r = record r {
  entries = store_all (default_entries now) r.entries;
  last_updated = now;
}

-- The zero time is never read: `loadDefaults` sets it.
unfoldable pub new_in_memory_pricing_registry : Bool → ℤ → InMemoryPricingRegistry
unfolding load_defaults
new_in_memory_pricing_registry fail_closed now = load_defaults now record {
  entries = [];
  last_updated = pos 0;
  fail_closed = fail_closed;
  drift_metrics = some [];
}

unfoldable pub add_entry : ℤ → PricingEntry → InMemoryPricingRegistry → InMemoryPricingRegistry
add_entry now p r = record r { entries = insert (key p) p r.entries; last_updated = now }

-- The entry of the region, else that of the model in any region.
abbrev regional :
    Bytes → Bytes → Bytes → InMemoryPricingRegistry → Option PricingEntry → Option PricingEntry
regional provider model region r (some p) = some p
regional provider model region r none =
    if is_empty_text region then none else lookup (build_pricing_key provider model []) r.entries

unfoldable pub find_entry : Bytes → Bytes → Bytes → InMemoryPricingRegistry → Option PricingEntry
find_entry provider model region r =
    regional provider model region r (lookup (build_pricing_key provider model region) r.entries)

abbrev unavailable : Bytes → Bytes → Bytes → Bytes → Err
unavailable provider model region reason = pricing_error record {
  provider = provider;
  model = model;
  region = region;
  reason = reason;
  error_type = ErrorType.pricing_unavailable;
}

module _ (show_time : ℤ → Bytes) (now : ℤ) where
  -- `GetCost` from the test of `exists` on.
  unfoldable pub cost_of :
      Bytes → Bytes → Bytes → NormalizedUsage → Bool → Option PricingEntry → ℤ × Option Err
  cost_of provider model region usage fail_closed none =
      if fail_closed
      then (pos 0, some (unavailable provider model region (bytes "pricing data not available")))
      else (pos 0, none)
  cost_of provider model region usage fail_closed (some p) =
      if is_expired now p && fail_closed
      then (
        pos 0,
        some (
            unavailable provider model region
              (bytes "pricing data expired at " ++ show_time p.valid_until)),
      )
      else (calculate usage p, none)

  unfoldable pub get_cost :
      Bytes → Bytes → Bytes → NormalizedUsage → InMemoryPricingRegistry → ℤ × Option Err
  unfolding cost_of find_entry
  get_cost provider model region usage r =
      cost_of provider model region usage r.fail_closed (find_entry provider model region r)

  -- The pricing middleware after `next.Handle`; `none` is the panic of a nil response.
  unfoldable pub price : InMemoryPricingRegistry → Request → Reply → Option Reply
  unfolding get_cost
  price r req (resp, some e) = some (none, some e)
  price r req (none, none) = none
  price r req (some resp, none) =
      let (cost, err) = get_cost req.provider req.model [] resp.usage r in
      elim err [
        | some e ↦ some (none, some e)
        | none ↦ some (some (record resp { estimated_cost_milli_cents = cost }), none)
      ]

  unfoldable pub handle :
      {W : Type 0} → InMemoryPricingRegistry → Handler W → Context → Request → W → W × Option Reply
  unfolding price
  handle r next ctx req w = let (w', reply) = next ctx req w in (w', price r req reply)

abbrev pub fresh : ℤ → Option PricingEntry → Bool
fresh now none = false
fresh now (some p) = not (is_expired now p)

unfoldable pub is_available : ℤ → Bytes → Bytes → Bytes → InMemoryPricingRegistry → Bool
unfolding find_entry
is_available now provider model region r = fresh now (find_entry provider model region r)
