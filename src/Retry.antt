-- ===== src/Retry.antt =====
-- internal/llm/retry: the retry middleware, part by part.
pub mod Config
pub mod Backoff
pub mod Bounds
pub mod Waiting
pub mod Classify
pub mod Stats
pub mod Loop
pub mod Attempts
pub mod Script
pub mod Outcome
pub mod Tests
pub mod Agreement
