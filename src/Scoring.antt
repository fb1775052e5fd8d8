-- ===== src/Scoring.antt =====
-- internal/scoring: the activity that scores answers, and its validator.
pub mod Policy
pub mod Validator
pub mod Rationale
pub mod Events
pub mod Silence
pub mod Batch
pub mod Slots
pub mod Owners
mod Tests
