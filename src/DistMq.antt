-- ===== src/DistMq.antt =====
-- dist-mq: the replicated queue. The storage is the state machine, the commands are the entries of
-- the replicated log, and delivery runs on the leader.
pub mod Storage
pub mod Command
pub mod Fsm
pub mod Delivery
pub mod Snapshot
