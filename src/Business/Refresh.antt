-- ===== src/Business/Refresh.antt =====
-- internal/llm/business/pricing.go: the refresh of the registry. The readings of the clock in one
-- call are a record.
use go_judgy.Prelude.{
  Bool, true, false, ◌&&◌, ◌||◌, Option, none, some, List, [], ◌∷◌, ◌++◌, if◌then◌else◌,
}
use go_judgy.Prelude.Int.{ℤ, ◌+ℤ◌, ◌-ℤ◌, ltb_ℤ, saturate64}
use go_judgy.Prelude.Bytes.{Bytes, bytes}
use go_judgy.Errors.Types.{ErrorType, Err, pricing_error}
use go_judgy.Errors.Text.{error_text}
use go_judgy.Business.Pricing.{
  PricingEntry, pricing_valid_for, refresh_buffer, default_entries, store_all,
}
use go_judgy.Business.Registry.{InMemoryPricingRegistry}

pub record Readings : Type 0 where
  pub since : ℤ
  pub threshold : ℤ
  pub fetched : ℤ
  pub expiry : ℤ
  pub extension : ℤ
  pub updated : ℤ

-- The loop over the map that looks for an entry that is valid until before a time.
unfoldable pub ends_before : ℤ → List (Bytes × PricingEntry) → Bool
ends_before t [] = false
ends_before t ((k, p) ∷ entries) = ltb_ℤ p.valid_until t || ends_before t entries

unfoldable pub should_refresh : Readings → InMemoryPricingRegistry → Bool
unfolding ends_before
should_refresh c r =
    ltb_ℤ pricing_valid_for (saturate64 (c.since -ℤ r.last_updated))
    || ends_before (c.threshold +ℤ refresh_buffer) r.entries

unfoldable pub has_expired_entries : Readings → InMemoryPricingRegistry → Bool
unfolding ends_before
has_expired_entries c r = ends_before c.expiry r.entries

abbrev extend : ℤ → List (Bytes × PricingEntry) → List (Bytes × PricingEntry)
extend t [] = []
extend t ((k, p) ∷ entries) = (k, record p { valid_until = t }) ∷ extend t entries

unfoldable pub extend_validity : Readings → InMemoryPricingRegistry → InMemoryPricingRegistry
extend_validity c r = record r {
  entries = extend (c.extension +ℤ pricing_valid_for) r.entries;
  last_updated = c.updated;
}

-- What `fetchPricingData` returns: an error, or the entries and whether they are new.
pub data Fetch : Type 0 where
  fetch_error : Err → Fetch
  fetched_entries : List PricingEntry → Bool → Fetch

unfoldable pub fetch_pricing_data : Readings → Fetch
fetch_pricing_data c = fetched_entries (default_entries c.fetched) true

-- `Refresh` from the call of `fetchPricingData` on.
unfoldable pub apply_fetch :
    Readings → InMemoryPricingRegistry → Fetch → InMemoryPricingRegistry × Option Err
unfolding has_expired_entries extend_validity
apply_fetch c r (fetch_error e) =
    if r.fail_closed && has_expired_entries c r
    then (
      r,
      some (
          pricing_error record {
            provider = bytes "all";
            model = bytes "all";
            region = [];
            reason = bytes "failed to refresh pricing data: " ++ error_text e;
            error_type = ErrorType.pricing_unavailable;
          }),
    )
    else (r, none)
apply_fetch c r (fetched_entries new_entries false) = (extend_validity c r, none)
apply_fetch c r (fetched_entries new_entries true) =
    (record r { entries = store_all new_entries r.entries; last_updated = c.updated }, none)

unfoldable pub refresh : Readings → InMemoryPricingRegistry → InMemoryPricingRegistry × Option Err
unfolding should_refresh apply_fetch
refresh c r = if should_refresh c r then apply_fetch c r (fetch_pricing_data c) else (r, none)
