-- ===== src/Business/PricingLaws.antt =====
-- internal/llm/business/pricing.go: the cost of a call, the keys, and when `GetCost` fails.
use go_judgy.Prelude.{
  ℕ, ◌+◌, ◌*◌, ◌/◌, ◌≤◌, ◌<◌, ◌≡◌, refl, Bool, true, false, not, ◌&&◌, Bool-cases, inl, inr, Option,
  none, some, is_some, [], ◌++◌, arith,
}
use go_judgy.Prelude.Int.{ℤ, pos, ◌*ℤ◌, div_trunc, max_int64, int64-pos, pos-+ℤ}
use go_judgy.Prelude.Bytes.{Bytes, bytes, is_empty_text}
use go_judgy.Transport.{NormalizedUsage}
use go_judgy.Business.Pricing.{PricingEntry, build_pricing_key, calculate, is_expired, part_cost}
use go_judgy.Business.Registry.{
  InMemoryPricingRegistry, cost_of, fresh, get_cost, find_entry, is_available,
}

pos-*ℤ : (a b : ℕ) → pos a *ℤ pos b ≡ pos (a * b)
unfolding ◌*ℤ◌
pos-*ℤ a b = ground arith

part_cost-pos : (n c : ℕ) → n * c ≤ max_int64 → part_cost (pos n) (pos c) ≡ pos (n * c / 1000)
unfolding div_trunc
part_cost-pos n c h = rw (pos-*ℤ, int64-pos (n * c) h) refl

-- For counts of tokens and prices that are not negative, with products and their sum in the range
-- of int64, the cost is never above a thousandth of that sum, and less than 2 milli-cents below it.
pub calculate-exact :
    (usage : NormalizedUsage) (p : PricingEntry) (n m a b : ℕ)
    → usage.prompt_tokens ≡ pos n
    → usage.completion_tokens ≡ pos m
    → p.prompt_cost_per_1000 ≡ pos a
    → p.output_cost_per_1000 ≡ pos b
    → n * a + m * b ≤ max_int64
    → (cost : ℕ) × (calculate usage p ≡ pos cost
        × (cost * 1000 ≤ n * a + m * b × n * a + m * b < cost * 1000 + 2000))
unfolding calculate
calculate-exact usage p n m a b en em ea eb h = (
  n * a / 1000 + m * b / 1000,
  (
    rw
        (
          en,
          em,
          ea,
          eb,
          part_cost-pos n a (ground (arith, h)),
          part_cost-pos m b (ground (arith, h)),
          pos-+ℤ,
        )
        (int64-pos (n * a / 1000 + m * b / 1000) (ground (arith, h))),
    (ground (arith, h), ground (arith, h)),
  ),
)

-- Two different look-ups may have one key: a model in a region that is not empty has the key of the
-- model whose name ends in a slash and the region, without a region.
pub build_pricing_key-collides :
    (provider model region : Bytes)
    → is_empty_text region ≡ false
    → build_pricing_key provider model region
      ≡ build_pricing_key provider (model ++ (bytes "/" ++ region)) []
unfolding build_pricing_key
build_pricing_key-collides provider model region h = rw h refl

cost_of-fails :
    (show_time : ℤ → Bytes) (now : ℤ) (provider model region : Bytes) (usage : NormalizedUsage)
    (fail_closed : Bool) (o : Option PricingEntry)
    → is_some (cost_of show_time now provider model region usage fail_closed o).1
      ≡ (fail_closed && not (fresh now o))
unfolding cost_of
cost_of-fails show_time now provider model region usage true none = refl
cost_of-fails show_time now provider model region usage false none = refl
cost_of-fails show_time now provider model region usage true (some p) =
    elim (Bool-cases (is_expired now p)) [ inl e ↦ rw e refl | inr e ↦ rw e refl ]
cost_of-fails show_time now provider model region usage false (some p) =
    elim (Bool-cases (is_expired now p)) [ inl e ↦ rw e refl | inr e ↦ rw e refl ]

-- At one reading of the clock, `GetCost` returns an error exactly when the registry fails closed and
-- `IsAvailable` says no for the same provider, model and region.
pub get_cost-fails :
    (show_time : ℤ → Bytes) (now : ℤ) (provider model region : Bytes) (usage : NormalizedUsage)
    (r : InMemoryPricingRegistry)
    → is_some (get_cost show_time now provider model region usage r).1
      ≡ (r.fail_closed && not (is_available now provider model region r))
unfolding get_cost is_available
get_cost-fails show_time now provider model region usage r =
    cost_of-fails show_time now provider model region usage r.fail_closed
      (find_entry provider model region r)
