-- ===== src/Events.antt =====
-- internal/domain/events.go, pkg/events and pkg/activity: the events that the activities emit.
pub mod Keys
pub mod Envelope
pub mod Emit
mod Tests
