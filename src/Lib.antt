-- ===== src/Lib.antt =====
-- simonMQ: five message queues in Go, from a broker with slices to a replicated one.
--
-- The programs of the repository and the modules that model them:
--
-- * simple-mq (simple-mq/broker.go) is a map of queues, each a slice. `SimpleMq` has its `enqueue`
--   and `dequeue`; `SimpleMq/Fifo` says what they do to the contents of the queues.
-- * simple-mq-2 (simple-mq-2/broker.go and queue.go) puts a growing ring buffer in place of the
--   slice. `Ring` is that buffer, the text of which stands in four of the programs (here after
--   durable-mq/queue/queue.go); `SimpleMq2` is the broker over it.
-- * push-mq pushes messages to subscribers. `PushMq/Queue` is a queue with its ring and its
--   subscribers (push-mq/queue.go), `PushMq/Broker` the map of queues (push-mq/broker.go), and
--   `PushMq/Worker` one round of the delivery of a message (`ProcessMsg` of push-mq/worker.go).
-- * durable-mq logs every change before it makes it. `Durable/Record` is the layout of a log record
--   (record/record.go). `Durable/Wal` is the log: `Scan` the scan of a segment (`scanSegment` of
--   wal/segment-mgr.go), `Names` the names of the segments, `Segments` the list of the segments with
--   the files of the directory (the rest of wal/segment-mgr.go), `Writer` the appends and the
--   start of a process on a directory (wal/writer.go), `Reader` the reading of all segments with
--   their checkpoints (wal/reader.go), and `Log` the two together, in every mode (wal/wal.go).
--   `Durable/Catalog` is the queues and their subscribers
--   (catalog/catalog.go), `Durable/Delivery` the messages that a replay collects
--   (delivery/delivery.go), `Durable/Coordinator` the logged operations and `ReplayLog`
--   (coordinator/coordinator.go), and `Durable/Compaction` the compaction of a checkpoint
--   (`CompactRecords` of coordinator/checkpointing.go). `Durable/Worker` is a message with its
--   deliveries and one round over it (`ProcessMsg` of queue/worker.go), whose acks it writes to the
--   coordinator's log, and `Durable/Broker` the queues, their rebuilding after a replay and the
--   calls of the clients (queue/broker.go).
-- * dist-mq replicates a log of commands. `DistMq/Command` is their encoding (command/command.go),
--   `DistMq/Storage` the state of a node (storage/in-memory-storage.go), `DistMq/Snapshot` its
--   snapshots (the same file), and `DistMq/Fsm` the
--   application of a log entry to it (fsm/fsm.go). The leader delivers what the storage owes:
--   `DistMq/Delivery/Queue` is a message with its deliveries and the queue of a worker
--   (delivery/queue.go), `DistMq/Delivery/Worker` one pass over a message and the loop of a worker
--   (delivery/worker.go), and `DistMq/Delivery/Manager` the scheduling and the terms of the leader
--   (delivery/manager.go), with the interleavings of a term in `DistMq/Delivery/Manager/Held`.
--
-- How the code corresponds. A struct is a record and a Go map an association list (`Dict`), read by
-- the first entry of a key; `range` visits the entries in the order of the list. A string is the
-- list of its bytes. An operation on shared state takes the state and returns it with its result; a
-- mutex is held throughout each, so that a run is a sequence of operations. There are some exceptions,
-- which are taken as one step here: simple-mq-2 and `Enqueue` of durable-mq lock the broker to find a
-- queue and then the queue, the worker of push-mq unlocks the queue between its snapshot of the
-- subscribers and the requeue, and a sweep of dist-mq takes the lock once for each message. A worker
-- of dist-mq takes a message and
-- ends its pass over it in two steps, between which others come.
-- An error is a value of a result type, a panic is `none` or a constructor of its own.
-- Fixed widths are written out where they matter: the fields of a log record, the length limit of
-- the reader, and the sequence numbers of dist-mq, which are assumed to stay below 2 ^ 64. The
-- numbers of slots and messages are unbounded.
--
-- Fuel. The scan of a segment runs on one round for each byte and one more: each round that goes on
-- takes at least the twelve bytes of a header. The reader of the log
-- runs on its rounds, one for each record and one for each segment; twice the number of the records and
-- one more are enough, and no number is where it does not end. The promotion of dist-mq makes the
-- number of attempts that the source gives.
--
-- Parameters. encoding/json is a parameter (`Json` of `DistMq/Command` and `DistMq/Snapshot`, `Codec` of
-- `Durable/Model`)
-- with the laws that its documentation gives for these structures; what the operating system does with
-- the write and the sync of an append to the log is an argument of the log's writer, of the
-- coordinator's operations, of the workers and of the broker (`Io` of `Durable/Wal/Writer`), and so are the outcomes of the HTTP requests of push-mq, durable-mq and dist-mq, of the acks and of the
-- barriers of the raft library, and the identifiers that the uuid package makes.
--
-- Not modelled: HTTP servers and clients and raft, for they are input and output around the parts
-- above; errors of the operating system when it opens, closes or removes a file; the goroutine that
-- makes checkpoints, so that the runs of the coordinator are those without one; the loop of the workers of durable-mq; the snapshots' way
-- through the raft library; a worker of dist-mq that is still in a request when its term ends; and the programs under the
-- e2e-tests directories, which are tests.
--
-- `Base`, `Dict` and `Model` hold what the parts share, `Tests` the theorems at concrete inputs.
pub mod Base
pub mod Dict
pub mod Ring
pub mod SimpleMq
pub mod SimpleMq2
pub mod Model
pub mod Pending
pub mod PushMq
pub mod DistMq
pub mod Durable
pub mod Tests
