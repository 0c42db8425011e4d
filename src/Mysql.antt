-- ===== src/Mysql.antt =====
-- The MySQL side, internal/mysql: the commit gate, the binlog handler and the dump reader.
pub mod CommitGate
pub mod Handler
pub mod Dump
pub mod Offsets
