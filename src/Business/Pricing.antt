-- ===== src/Business/Pricing.antt =====
-- internal/llm/business/pricing.go: price entries, their keys, and the cost of a call. Times and
-- durations are nanoseconds.
use go_judgy.Prelude.{Bool, List, [], ◌∷◌, ◌++◌, if◌then◌else◌}
use go_judgy.Prelude.Int.{ℤ, pos, ◌+ℤ◌, ◌*ℤ◌, ltb_ℤ, int64, div_trunc}
use go_judgy.Prelude.Bytes.{Bytes, bytes, is_empty_text, insert}
use go_judgy.Transport.{NormalizedUsage}

pub record PricingEntry : Type 0 where
  pub provider : Bytes
  pub model : Bytes
  pub region : Bytes
  pub prompt_cost_per_1000 : ℤ
  pub output_cost_per_1000 : ℤ
  pub valid_until : ℤ

-- `buildPricingKey`.
unfoldable pub build_pricing_key : Bytes → Bytes → Bytes → Bytes
build_pricing_key provider model region =
    if is_empty_text region
    then provider ++ (bytes "/" ++ model)
    else provider ++ (bytes "/" ++ (model ++ (bytes "/" ++ region)))

-- `Key`.
unfoldable pub key : PricingEntry → Bytes
key p =
    if is_empty_text p.region
    then p.provider ++ (bytes "/" ++ p.model)
    else p.provider ++ (bytes "/" ++ (p.model ++ (bytes "/" ++ p.region)))

unfoldable pub is_expired : ℤ → PricingEntry → Bool
is_expired now p = ltb_ℤ p.valid_until now

abbrev pub part_cost : ℤ → ℤ → ℤ
part_cost tokens cost_per_1000 = div_trunc (int64 (tokens *ℤ cost_per_1000)) 1000

-- `Calculate`, in `int64`.
unfoldable pub calculate : NormalizedUsage → PricingEntry → ℤ
calculate usage p = int64 (
    part_cost usage.prompt_tokens p.prompt_cost_per_1000
    +ℤ part_cost usage.completion_tokens p.output_cost_per_1000)

-- 24 hours.
abbrev pub pricing_valid_for : ℤ
pricing_valid_for = pos 86400000000000

-- Five minutes.
abbrev pub refresh_buffer : ℤ
refresh_buffer = pos 300000000000

abbrev entry : Bytes → Bytes → ℤ → ℤ → ℤ → PricingEntry
entry provider model prompt_cost output_cost now = record {
  provider = provider;
  model = model;
  region = [];
  prompt_cost_per_1000 = prompt_cost;
  output_cost_per_1000 = output_cost;
  valid_until = now +ℤ pricing_valid_for;
}

-- The entries that `loadDefaults` and `fetchPricingData` both list.
unfoldable pub default_entries : ℤ → List PricingEntry
default_entries now =
    entry (bytes "openai") (bytes "gpt-4") (pos 30000) (pos 60000) now
    ∷ entry (bytes "openai") (bytes "gpt-3.5-turbo") (pos 1500) (pos 2000) now
    ∷ entry (bytes "anthropic") (bytes "claude-3-opus-20240229") (pos 15000) (pos 75000) now
    ∷ entry (bytes "anthropic") (bytes "claude-3-sonnet-20240229") (pos 3000) (pos 15000) now
    ∷ entry (bytes "google") (bytes "gemini-pro") (pos 500) (pos 1500) now
    ∷ []

-- `r.entries[entry.Key()] = entry` for each entry.
unfoldable pub store_all :
    List PricingEntry → List (Bytes × PricingEntry) → List (Bytes × PricingEntry)
unfolding key
store_all [] entries = entries
store_all (p ∷ ps) entries = store_all ps (insert (key p) p entries)
