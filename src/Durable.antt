-- ===== src/Durable.antt =====
-- durable-mq: the queue over a write-ahead log.
pub mod Record
pub mod Wal
pub mod Model
pub mod Catalog
pub mod Delivery
pub mod Coordinator
pub mod Compaction
pub mod Worker
pub mod Broker
