-- ===== src/Cdc.antt =====
-- internal/cdc: the events and the bus that carries them.
pub mod Event
pub mod Service
