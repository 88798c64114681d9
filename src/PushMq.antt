-- ===== src/PushMq.antt =====
-- push-mq: a broker whose queues push their messages to subscribers.
pub mod Queue
pub mod Broker
pub mod Valid
pub mod Calls
pub mod Worker
pub mod Rounds
