-- ===== src/Durable/Coordinator.antt =====
-- durable-mq/coordinator/coordinator.go: every change is a record in the log first, and then a
-- change of the catalog; at startup the log is replayed.
-- What the operating system does with an append is an argument. Checkpoints, which a goroutine of the
-- append makes, are in `Durable.Compaction`.
pub mod Logged
pub mod Runs
pub mod Restart
pub mod Unsynced
pub mod Replayed
use simon_mq.Base.{
  ℕ, ◌+◌, ◌==◌, Bool, true, false, Option, none, some, List, [], ◌∷◌, ◌++◌, GoString, if◌then◌else◌,
}
use simon_mq.Dict.{Dict}
use simon_mq.Model.{pos, SubPolicy}
use simon_mq.Durable.Model.{Codec, Enqueue, Ack}
use simon_mq.Durable.Record
use simon_mq.Durable.Record.{Record}
use simon_mq.Durable.Wal.Writer
use simon_mq.Durable.Wal.Writer.{Io, Appended}
use simon_mq.Durable.Wal.Reader.{EndCheckpoint}
use simon_mq.Durable.Wal.Log
use simon_mq.Durable.Wal.Log.{Log, LogRead, log_read, log_failed, log_crashed}
use simon_mq.Durable.Catalog
use simon_mq.Durable.Catalog.{Catalog, CatalogError, process_record}
use simon_mq.Durable.Delivery
use simon_mq.Durable.Delivery.{
  Delivery, DeliveryError, process_enqueue, process_ack, delete_queue_messages,
}

pub record Coordinator : Type 0 where
  pub log : Log
  pub cat : Catalog

pub data CoordError : Type 0 where
  queue_not_found append_failed read_failed : CoordError
  catalog_error : CatalogError → CoordError
  delivery_error : DeliveryError → CoordError

pub data Result {ℓ} (A : Type ℓ) : Type ℓ where
  ok : A → Result A
  err : CoordError → Result A

-- The log's LSN is given at the append.
abbrev pub new_record : ℕ → GoString → List ℕ → Record
new_record op queue_name payload = record {
  lsn = 0;
  op_type = op;
  queue_name = queue_name;
  payload = payload;
}

abbrev pub catalog_result : Catalog.Outcome → Coordinator → Result (Unit {0}) × Coordinator
catalog_result (none, cat) c = (ok tt, record c { cat = cat })
catalog_result (some e, cat) c = (err (catalog_error e), record c { cat = cat })

module _ (codec : Codec) (io : Io) where
  abbrev pub processed : Coordinator → Record → Appended × Log → Result (Unit {0}) × Coordinator
  processed c r (Writer.ok lsn, log) =
      catalog_result (process_record codec c.cat (record r { lsn = lsn })) (record c { log = log })
  processed c r (Writer.failed, log) = (err append_failed, record c { log = log })

  -- Append, then the same record to the catalog.
  unfoldable pub log_and_process : Coordinator → Record → Result (Unit {0}) × Coordinator
  log_and_process c r = processed c r (Log.append io c.log r)

  unfoldable pub create_queue : Coordinator → GoString → Result (Unit {0}) × Coordinator
  create_queue c queue_name = log_and_process c (new_record Record.op_create_queue queue_name [])

  unfoldable pub delete_queue : Coordinator → GoString → Result (Unit {0}) × Coordinator
  delete_queue c queue_name =
      if Catalog.queue_exists c.cat queue_name
      then log_and_process c (new_record Record.op_delete_queue queue_name [])
      else (err queue_not_found, c)

  unfoldable pub update_sub_policy :
      Coordinator → GoString → SubPolicy → Result (Unit {0}) × Coordinator
  update_sub_policy c queue_name policy =
      if Catalog.queue_exists c.cat queue_name
      then log_and_process c
          (new_record Record.op_update_sub_policy queue_name (codec.encode_sub_policy policy))
      else (err queue_not_found, c)

  abbrev pub named_only : GoString → SubPolicy
  named_only sub_name = record { sub_name = sub_name; sub_url = []; number_of_retries = pos 0 }

  unfoldable pub delete_sub_policy :
      Coordinator → GoString → GoString → Result (Unit {0}) × Coordinator
  delete_sub_policy c queue_name sub_name =
      if Catalog.queue_exists c.cat queue_name
      then log_and_process c (
          new_record Record.op_delete_sub_policy queue_name
            (codec.encode_sub_policy (named_only sub_name)))
      else (err queue_not_found, c)

  abbrev pub replied {ℓ} : {A : Type ℓ} → Coordinator → A → Appended × Log → Result A × Coordinator
  replied c a (Writer.ok lsn, log) = (ok a, record c { log = log })
  replied c a (Writer.failed, log) = (err append_failed, record c { log = log })

  unfoldable pub log_only {ℓ} : {A : Type ℓ} → Coordinator → Record → A → Result A × Coordinator
  log_only c r a = replied c a (Log.append io c.log r)

  abbrev pub enqueue_to :
      Option (Dict SubPolicy)
      → Coordinator
      → GoString
      → GoString
      → GoString
      → Result (Dict SubPolicy) × Coordinator
  enqueue_to none c queue_name msg_id content = (err queue_not_found, c)
  enqueue_to (some sub_list) c queue_name msg_id content =
      log_only c
        (new_record Record.op_enqueue queue_name (
          codec.encode_enqueue
            (record { msg_id = msg_id; msg_content = content; sub_list = sub_list })))
        sub_list

  unfoldable pub enqueue :
      Coordinator → GoString → GoString → GoString → Result (Dict SubPolicy) × Coordinator
  enqueue c queue_name msg_id content =
      if Catalog.queue_exists c.cat queue_name
      then enqueue_to (Catalog.fetch_queue_sub_list c.cat queue_name) c queue_name msg_id content
      else (err queue_not_found, c)

  -- The queue is not looked up.
  unfoldable pub ack :
      Coordinator → GoString → GoString → GoString → Result (Unit {0}) × Coordinator
  ack c queue_name msg_id sub_name =
      log_only c
        (new_record Record.op_ack queue_name
          (codec.encode_ack (record { msg_id = msg_id; sub_name = sub_name })))
        tt

-- The state that a replay builds.
pub record Replay : Type 0 where
  pub cat : Catalog
  pub deli : Delivery

abbrev pub new_replay : Replay
new_replay = record { cat = []; deli = [] }

abbrev pub delivery_outcome : Delivery.Outcome → Replay → Result Replay
delivery_outcome (none, deli) s = ok (record s { deli = deli })
delivery_outcome (some e, deli) s = err (delivery_error e)

abbrev pub catalog_outcome : Catalog.Outcome → Replay → Record → Result Replay
catalog_outcome (some e, cat) s r = err (catalog_error e)
catalog_outcome (none, cat) s r = ok (record {
  cat = cat;
  deli =
      if r.op_type == Record.op_delete_queue
      then delete_queue_messages s.deli r.queue_name
      else s.deli;
})

module _ (codec : Codec) where
  -- One round of the loop of `ReplayLog`.
  unfoldable pub replay_record : Replay → Record → Result Replay
  replay_record s r =
      if r.op_type == Record.op_enqueue
      then delivery_outcome (process_enqueue codec s.deli r) s
      else if r.op_type == Record.op_ack
      then delivery_outcome (process_ack codec s.deli r) s
      else catalog_outcome (process_record codec s.cat r) s r

  -- The first error ends the replay.
  unfoldable pub replay_records : Replay → List Record → Result Replay
  replay_records s [] = ok s
  replay_records s (r ∷ rs) = elim (replay_record s r) [
    | ok s' ↦ replay_records s' rs
    | err e ↦ err e
  ]

-- The state that `ReplayLog` builds, with the log behind it; its error; or a panic of `Decode`.
pub data ReplayResult : Type 0 where
  replayed : Replay → Log → ReplayResult
  not_replayed : CoordError → ReplayResult
  replay_crashed : ReplayResult

module _ (codec : Codec) (decode_end_checkpoint : List ℕ → Option EndCheckpoint) where
  abbrev pub outcome : Log → Result Replay → ReplayResult
  outcome log (ok s) = replayed s log
  outcome log (err e) = not_replayed e

  abbrev pub replay_read : Catalog → Option LogRead → Option ReplayResult
  replay_read cat none = none
  replay_read cat (some (log_read rs log)) =
      some (outcome log (replay_records codec (record new_replay { cat = cat }) rs))
  replay_read cat (some log_failed) = some (not_replayed read_failed)
  replay_read cat (some log_crashed) = some replay_crashed

  -- The log is read on the reader's fuel.
  unfoldable pub replay_log : ℕ → Coordinator → Option ReplayResult
  replay_log fuel c = replay_read c.cat (Log.read_all decode_end_checkpoint fuel c.log)
