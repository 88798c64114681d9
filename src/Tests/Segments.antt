-- ===== src/Tests/Segments.antt =====
-- The segments of the log of durable-mq.
use simon_mq.Base.{ℕ, ◌≡◌, refl, arith, Option, none, some, List, [], ◌∷◌, codes}
use simon_mq.Durable.Record
use simon_mq.Durable.Record.{Record}
use simon_mq.Durable.Wal.Names.{segment_file_name, first_lsn}
use simon_mq.Durable.Wal.Names.RoundTrip.{first_lsn-segment_file_name}
use simon_mq.Durable.Wal.Segments.{new_segment_manager_with_threshold}
use simon_mq.Durable.Wal.Writer.{
  Writer, mode_sync, open_writer, Session, run_sessions, append, fine, ok,
}
use simon_mq.Durable.Wal.Writer.Sessions.{Storable, AllFit, numbered_from}
use simon_mq.Durable.Wal.Writer.Durability.{fresh_writer, log_survives_crashes}
use simon_mq.Durable.Wal.Writer.Oversized.{oversized_first_record_loops}
use simon_mq.Durable.Wal.Reader.{EndCheckpoint, Reader, open_reader, read, read_all}
use simon_mq.Durable.Wal.Reader.Reads.{IsPlain, at}
use simon_mq.Tests.Fixtures.{orders}

abbrev creation : Record
creation = record { lsn = 0; op_type = Record.op_create_queue; queue_name = orders; payload = [] }

abbrev message : Record
message = record {
  lsn = 0;
  op_type = Record.op_enqueue;
  queue_name = orders;
  payload = codes "one";
}

creation-IsPlain : IsPlain creation
creation-IsPlain = record { not_begin = refl; not_end = refl }

creation-Storable : Storable 40 creation
creation-Storable = record {
  op_fits = omega arith;
  limit = omega arith;
  room = omega arith;
  plain = creation-IsPlain;
}

message-Storable : Storable 40 message
message-Storable = record {
  op_fits = omega arith;
  limit = omega arith;
  room = omega arith;
  plain = record { not_begin = refl; not_end = refl };
}

-- A segment has room for one record, so each append begins a new one.
abbrev sessions : List Session
sessions =
    record { records = creation ∷ message ∷ []; cut = message; written = 20 }
    ∷ record { records = message ∷ []; cut = creation; written = 5 }
    ∷ []

sessions-AllFit : AllFit 40 sessions
sessions-AllFit = (
  record {
    records = (creation-Storable, (message-Storable, tt));
    cut = message-Storable;
    written = omega arith;
  },
  (record { records = (message-Storable, tt); cut = creation-Storable; written = omega arith }, tt),
)

abbrev no_json : List ℕ → Option EndCheckpoint
no_json p = none

log_survives_crashes_example :
    (w0 : Writer) × (open_writer (new_segment_manager_with_threshold [] 4) 40 mode_sync ≡ some w0)
    × (w : Writer) × (run_sessions 4 w0 sessions ≡ some w)
    × (w.next_lsn ≡ 4)
    × (rd : Option Reader) × (open_reader w.sm ≡ some rd)
    × (read_all no_json 7 w.sm rd
        ≡ some (read (at no_json w.sm (numbered_from 1 (creation ∷ message ∷ message ∷ [])))))
log_survives_crashes_example =
    log_survives_crashes no_json 4 40 mode_sync sessions sessions-AllFit (omega arith)

oversized_first_record_loops_example :
    let (reply, w) = append fine (fresh_writer 4 20 mode_sync) creation in
    (reply ≡ ok 1)
    × (rd : Option Reader) × (open_reader w.sm ≡ some rd)
    × ((fuel : ℕ) → read_all no_json fuel w.sm rd ≡ none)
oversized_first_record_loops_example =
    oversized_first_record_loops no_json 4 20 mode_sync creation (omega arith) (omega arith)
      (omega arith) creation-IsPlain

first_lsn-segment_file_name_example : first_lsn (segment_file_name 42) ≡ some 42
first_lsn-segment_file_name_example = first_lsn-segment_file_name 42 (omega arith)
