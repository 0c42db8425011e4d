-- ===== src/Postgres.antt =====
-- internal/postgres: the PostgreSQL listener.
pub mod AckGate
pub mod Parser
pub mod Listener
pub mod Pipeline
pub mod Slots
pub mod Lag
pub mod Streaming
pub mod Startup
pub mod Snapshot
pub mod Dump
pub mod Setup
pub mod ConnString
pub mod Start
pub mod Reconnect
