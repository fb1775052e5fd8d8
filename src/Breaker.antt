-- ===== src/Breaker.antt =====
-- internal/llm/circuitbreaker: the circuit breaker of the LLM client, part by part.
pub mod State
pub mod Adaptive
pub mod Machine
pub mod Threshold
pub mod Invariant
pub mod Outcomes
pub mod Recovery
pub mod Accounting
pub mod Sharded
pub mod Table
pub mod Middleware
pub mod Verdict
pub mod Protection
pub mod Service
mod Tests
