-- ===== src/Durable/Wal.antt =====
-- durable-mq/wal: the segment files of the log.
pub mod Scan
pub mod Names
pub mod Segments
pub mod Writer
pub mod Reader
pub mod Log
