-- ===== src/Nats.antt =====
-- internal/nats: the publisher.
pub mod Subject
pub mod Backoff
pub mod Publisher
pub mod Stream
