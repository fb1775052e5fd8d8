-- ===== src/RateLimit.antt =====
-- internal/llm/ratelimit: the rate limiting middleware, part by part.
pub mod Limiter
pub mod Config
pub mod State
pub mod Window
pub mod WindowLaws
pub mod Global
pub mod Local
pub mod Cleanup
pub mod Middleware
pub mod Returns
pub mod Requests
pub mod Exhausted
pub mod Refused
pub mod Delays
mod Tests
