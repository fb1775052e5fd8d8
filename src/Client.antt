-- ===== src/Client.antt =====
-- internal/llm: the client, which puts requests together and passes them down its chain.
pub mod Generate
pub mod Accounts
pub mod Repairs
pub mod Validated
pub mod Score
pub mod Judged
mod Tests
