-- ===== src/Cache.antt =====
-- internal/llm/cache: the cache of responses in Redis.
pub mod Redis
pub mod Entry
pub mod Script
pub mod Middleware
pub mod Leases
pub mod Hits
mod Tests
