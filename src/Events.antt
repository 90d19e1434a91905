-- ===== src/Events.antt =====
-- Outbound events, lib/events, and the inbound events of core, lib/core-events.
pub mod Entity
pub mod Outbox
pub mod Drain
pub mod Consumer
