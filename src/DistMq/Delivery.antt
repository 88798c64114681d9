-- ===== src/DistMq/Delivery.antt =====
-- dist-mq/delivery: what the leader does to deliver the messages that the storage owes.
pub mod Queue
pub mod Worker
pub mod Manager
