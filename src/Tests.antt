-- ===== src/Tests.antt =====
-- The theorems at concrete inputs.
mod Cdc
mod Jsonutil
mod Mysql
mod Nats
mod Postgres
mod Pipeline
mod Snapshot
mod Offsets
mod Program
mod Sessions
mod Startup
