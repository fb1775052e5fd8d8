-- ===== src/Errors.antt =====
-- internal/llm/errors/types.go and workflow.go: the errors of the LLM client as values.
pub mod Types
pub mod Text
pub mod Classify
pub mod Stability
pub mod Digits
pub mod Tests
