-- ===== src/Tests/Catalogs.antt =====
-- The coordinator, the restart and the compaction of durable-mq.
use simon_mq.Base.{ℕ, ◌≡◌, ◌≢◌, refl, arith, Option, none, some, List, [], ◌∷◌, codes, str_eq}
use simon_mq.Dict.{get, has, put}
use simon_mq.Durable.Record
use simon_mq.Durable.Record.{Record}
use simon_mq.Durable.Wal.Log.Kept.{InFiles}
use simon_mq.Durable.Wal.Writer.Durability.{fresh_writer}
use simon_mq.Durable.Coordinator.Unsynced.{failed_sync_leaves_record}
use simon_mq.Durable.Wal.Writer.{Writer, sync_fails, numbered, mode_sync, mode_off, fine}
use simon_mq.Durable.Wal.Writer.Sessions.{Storable, SessionFits}
use simon_mq.Durable.Wal.Reader.{EndCheckpoint}
use simon_mq.Durable.Wal.Log.{on, Log, open_with_options}
use simon_mq.Durable.Catalog
use simon_mq.Durable.Catalog.{process_record}
use simon_mq.Durable.Coordinator.{
  err, append_failed, new_record, create_queue, Replay, ReplayResult, replayed, replay_log, ok,
  delete_queue, ack,
}
use simon_mq.Durable.Coordinator.Logged.{logged}
use simon_mq.Durable.Coordinator.Runs.{
  Call, call_create, call_update, call_delete, calls, new_coordinator, trace,
}
use simon_mq.Durable.Coordinator.Restart.{torn_files, session_of, enough, restart_restores_catalog}
use simon_mq.Durable.Coordinator.Replayed.{with_late_ack, ack_after_delete_breaks_replay}
use simon_mq.Durable.Compaction.{compact_records}
use simon_mq.Durable.Compaction.Policies.{catalog_policy}
use simon_mq.Durable.Compaction.Replays.{compact_records-same_catalog}
use simon_mq.Tests.Fixtures.{orders, alice, policy, codec}

abbrev no_json : List ℕ → Option EndCheckpoint
no_json p = none

sync-ne-off : mode_sync ≢ mode_off
sync-ne-off e = cc

abbrev cut : Record
cut = record { lsn = 0; op_type = Record.op_create_queue; queue_name = alice; payload = [] }

-- A record of one of these operations on the queue.
abbrev plain_record : ℕ → List ℕ → Record
plain_record op payload = record { lsn = 0; op_type = op; queue_name = orders; payload = payload }

cut-Storable : Storable 1000 cut
cut-Storable = record {
  op_fits = omega arith;
  limit = omega arith;
  room = omega arith;
  plain = record { not_begin = refl; not_end = refl };
}

creation-Storable : Storable 1000 (plain_record Record.op_create_queue [])
creation-Storable = record {
  op_fits = omega arith;
  limit = omega arith;
  room = omega arith;
  plain = record { not_begin = refl; not_end = refl };
}

update-Storable :
    Storable 1000
      (plain_record Record.op_update_sub_policy (codec.encode_sub_policy (policy alice)))
update-Storable = record {
  op_fits = omega arith;
  limit = omega arith;
  room = omega arith;
  plain = record { not_begin = refl; not_end = refl };
}

-- A queue and a subscriber.
abbrev setup : List Call
setup = call_create orders ∷ call_update orders (policy alice) ∷ []

setup-SessionFits : SessionFits 1000 (session_of codec setup cut 5)
unfolding trace process_record Catalog.create_queue Catalog.queue_exists put get has str_eq
setup-SessionFits = record {
  records = (creation-Storable, (update-Storable, tt));
  cut = cut-Storable;
  written = omega arith;
}

restart_restores_catalog_example :
    (first : Log) × (open_with_options [] 4 1000 mode_sync ≡ some first)
    × (second : Log) × (open_with_options
          (torn_files (calls codec (new_coordinator first) setup).log cut 5)
          4
          1000
          mode_sync
        ≡ some second)
    × (result : ReplayResult) × (replay_log codec no_json
          (enough codec setup)
          (new_coordinator second)
        ≡ some result)
    × ((s : Replay) (log : Log)
        → result ≡ replayed s log
        → s.cat ≡ (calls codec (new_coordinator first) setup).cat)
unfolding trace process_record Catalog.create_queue Catalog.queue_exists put get has str_eq
restart_restores_catalog_example =
    restart_restores_catalog codec no_json 4 1000 mode_sync setup cut 5 sync-ne-off
      setup-SessionFits (omega arith)

deletion-Storable : Storable 1000 (plain_record Record.op_delete_queue [])
deletion-Storable = record {
  op_fits = omega arith;
  limit = omega arith;
  room = omega arith;
  plain = record { not_begin = refl; not_end = refl };
}

ack-Storable : Storable 1000 (
    plain_record Record.op_ack
      (codec.encode_ack (record { msg_id = codes "m1"; sub_name = alice })))
ack-Storable = record {
  op_fits = omega arith;
  limit = omega arith;
  room = omega arith;
  plain = record { not_begin = refl; not_end = refl };
}

abbrev late : List Call
late = with_late_ack codec (call_create orders ∷ []) orders (codes "m1") alice []

late-SessionFits : SessionFits 1000 (session_of codec late cut 5)
unfolding trace process_record Catalog.create_queue Catalog.queue_exists put get has str_eq
late-SessionFits = record {
  records = (creation-Storable, (deletion-Storable, (ack-Storable, tt)));
  cut = cut-Storable;
  written = omega arith;
}

ack_after_delete_breaks_replay_example :
    (first : Log) × (open_with_options [] 4 1000 mode_sync ≡ some first)
    × ((delete_queue codec fine
          (calls codec (new_coordinator first) (call_create orders ∷ []))
          orders).0
        ≡ ok tt)
    × ((ack codec fine
          (calls codec (new_coordinator first) (call_create orders ∷ call_delete orders ∷ []))
          orders
          (codes "m1")
          alice).0
        ≡ ok tt)
    × (second : Log) × (open_with_options
          (torn_files (calls codec (new_coordinator first) late).log cut 5)
          4
          1000
          mode_sync
        ≡ some second)
    × (result : ReplayResult) × (replay_log codec no_json
          (enough codec late)
          (new_coordinator second)
        ≡ some result)
    × ((s : Replay) (log : Log) → ¬ (result ≡ replayed s log))
unfolding trace process_record Catalog.create_queue Catalog.queue_exists put get has str_eq logged
ack_after_delete_breaks_replay_example =
    ack_after_delete_breaks_replay codec no_json 4 1000 mode_sync (call_create orders ∷ []) []
      orders (codes "m1") alice cut 5 sync-ne-off refl tt tt late-SessionFits (omega arith)

abbrev synced : Writer
synced = fresh_writer 4 1000 mode_sync

failed_sync_leaves_record_example :
    let o = create_queue codec sync_fails (record { log = on synced none; cat = [] }) orders in
    (o.0 ≡ err append_failed)
    × (w : Writer) × (o.1 ≡ record { log = on w none; cat = [] })
    × (w.next_lsn ≡ 1)
    × InFiles w.sm.files (numbered 1 (new_record Record.op_create_queue orders []))
failed_sync_leaves_record_example = failed_sync_leaves_record codec synced none [] orders refl

abbrev records : List Record
records =
    record { lsn = 0; op_type = Record.op_create_queue; queue_name = orders; payload = [] }
    ∷ record {
      lsn = 1;
      op_type = Record.op_update_sub_policy;
      queue_name = orders;
      payload = codec.encode_sub_policy (policy alice);
    }
    ∷ []

compact_records-same_catalog_example :
    catalog_policy (logged codec [] (compact_records codec records)) orders alice
    ≡ catalog_policy (logged codec [] records) orders alice
compact_records-same_catalog_example = compact_records-same_catalog codec records orders alice
