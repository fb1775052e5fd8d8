-- ===== src/Aggregation.antt =====
-- internal/aggregation: the activity that combines the scores of the judges.
pub mod Sorting
pub mod Values
pub mod Policy
pub mod Order
pub mod Shuffle
pub mod Means
pub mod Tests
