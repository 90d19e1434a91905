-- ===== src/Agent.antt =====
-- The agent module of the service, app/agent.
pub mod Entity
pub mod Repo
pub mod Settlement
pub mod Presence
pub mod Service
