-- ===== src/Business.antt =====
-- internal/llm/business: what the calls of a provider cost, the usage they report, and stored artifacts.
pub mod Pricing
pub mod Registry
pub mod Refresh
pub mod Drift
pub mod Usage
pub mod Artifacts
pub mod Validation
pub mod ValidationLaws
pub mod PricingLaws
pub mod RefreshLaws
mod Tests
