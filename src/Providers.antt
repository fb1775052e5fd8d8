-- ===== src/Providers.antt =====
-- internal/llm/providers and the core handler of internal/llm/transport/handler.go.
pub mod Status
pub mod Router
pub mod Answers
mod Tests
