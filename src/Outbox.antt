-- ===== src/Outbox.antt =====
-- services/static-log-analysis/internal/outbox: the publisher that drains the transactional outbox.
pub mod Transport
pub mod Backoff
pub mod Publisher
