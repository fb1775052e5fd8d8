-- ===== src/Generation.antt =====
-- internal/generation: the activity that generates answers and stores their contents.
pub mod Keys
pub mod Store
pub mod Contents
pub mod Rounds
pub mod Batch
pub mod Cleanup
pub mod Activity
mod Tests
