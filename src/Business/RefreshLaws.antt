-- ===== src/Business/RefreshLaws.antt =====
-- internal/llm/business/pricing.go: what a refresh of the registry reaches, and what it does not.
use go_judgy.Prelude.{
  ◌≡◌, ◌∙◌, refl, Bool, true, false, not, ◌&&◌, ◌||◌, Bool-cases, inl, inr, some, List, [], ◌∷◌,
  arith, All,
}
use go_judgy.Prelude.Int.{ℤ, ◌+ℤ◌, ltb_ℤ}
use go_judgy.Prelude.Bytes.{Bytes, beq, lookup, insert, lookup-insert_self, lookup-insert_ne}
use go_judgy.Business.Pricing.{
  PricingEntry, build_pricing_key, key, is_expired, pricing_valid_for, default_entries, store_all,
}
use go_judgy.Business.Registry.{InMemoryPricingRegistry, find_entry, is_available}
use go_judgy.Business.Refresh.{Readings, should_refresh, apply_fetch, fetch_pricing_data, refresh}

-- Whether a list of entries has one with this key.
abbrev pub has_key : Bytes → List PricingEntry → Bool
has_key k [] = false
has_key k (p ∷ ps) = beq (key p) k || has_key k ps

abbrev distinct : List PricingEntry → Bool
distinct [] = true
distinct (p ∷ ps) = not (has_key (key p) ps) && distinct ps

lookup-store_all :
    (k : Bytes) (ps : List PricingEntry) (entries : List (Bytes × PricingEntry))
    → has_key k ps ≡ false
    → lookup k (store_all ps entries) ≡ lookup k entries
unfolding store_all
lookup-store_all k [] entries h = refl
lookup-store_all k (p ∷ ps) entries h =
    lookup-store_all k ps (insert (key p) p entries) (ground (arith, h))
    ∙ lookup-insert_ne k (key p) p entries (ground (arith, h))

-- The entries of a list of distinct keys are found after they are stored.
stored-All :
    (ps : List PricingEntry) (entries : List (Bytes × PricingEntry))
    → distinct ps ≡ true
    → All (λ p. lookup (key p) (store_all ps entries) ≡ some p) ps
unfolding store_all
stored-All [] entries h = tt
stored-All (p ∷ ps) entries h = (
  lookup-store_all (key p) ps (insert (key p) p entries) (ground (arith, h))
      ∙ lookup-insert_self (key p) p entries,
  stored-All ps (insert (key p) p entries) (ground (arith, h)),
)

fresh_entry :
    (now : ℤ) (p : PricingEntry) (r : InMemoryPricingRegistry)
    → lookup (key p) r.entries ≡ some p
    → ltb_ℤ p.valid_until now ≡ false
    → is_available now p.provider p.model p.region r ≡ true
unfolding is_available find_entry key build_pricing_key is_expired
fresh_entry now p r found valid = rw (found, valid) refl

available-All :
    (now : ℤ) (t : ℤ) (r : InMemoryPricingRegistry) (ps : List PricingEntry)
    → ltb_ℤ t now ≡ false
    → All (λ p. p.valid_until ≡ t) ps
    → All (λ p. lookup (key p) r.entries ≡ some p) ps
    → All (λ p. is_available now p.provider p.model p.region r ≡ true) ps
available-All now t r [] h valid found = tt
available-All now t r (p ∷ ps) h valid found =
    (fresh_entry now p r found.0 (rw valid.0 h), available-All now t r ps h valid.1 found.1)

default_entries-distinct : (t : ℤ) → distinct (default_entries t) ≡ true
unfolding default_entries key
default_entries-distinct t = refl

-- A refresh that is due makes every entry that is fetched available, for 24 hours from the fetch.
pub refresh-available :
    (c : Readings) (r : InMemoryPricingRegistry) (now : ℤ)
    → should_refresh c r ≡ true
    → ltb_ℤ (c.fetched +ℤ pricing_valid_for) now ≡ false
    → All
        (λ p. is_available now p.provider p.model p.region (refresh c r).0 ≡ true)
        (default_entries c.fetched)
unfolding refresh fetch_pricing_data apply_fetch default_entries
refresh-available c r now due valid = rw due (
    available-All now (c.fetched +ℤ pricing_valid_for)
      (record r {
        entries = store_all (default_entries c.fetched) r.entries;
        last_updated = c.updated;
      })
      (default_entries c.fetched) valid (refl, (refl, (refl, (refl, (refl, tt)))))
      (stored-All (default_entries c.fetched) r.entries (default_entries-distinct c.fetched)))

-- A refresh leaves every entry whose key is not among the fetched ones as it is, the end of its
-- validity included: it neither prices it anew nor extends it.
pub refresh-others :
    (c : Readings) (r : InMemoryPricingRegistry) (k : Bytes)
    → has_key k (default_entries c.fetched) ≡ false
    → lookup k (refresh c r).0.entries ≡ lookup k r.entries
unfolding refresh fetch_pricing_data apply_fetch
refresh-others c r k other = elim (Bool-cases (should_refresh c r)) [
  | inl due ↦ rw due (lookup-store_all k (default_entries c.fetched) r.entries other)
  | inr early ↦ rw early refl
]
