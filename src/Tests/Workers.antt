-- ===== src/Tests/Workers.antt =====
-- The worker and the broker of durable-mq: a message for alice and bob.
use simon_mq.Base.{
  length, ℕ, Option, List, ◌≡◌, ◌↔◌, refl, Bool, true, false, ◌||◌, none, some, [], ◌∷◌, GoString,
  codes, str_eq, if◌then◌else◌,
}
use simon_mq.Dict
use simon_mq.Dict.{has}
use simon_mq.Model.{SubPolicy}
use simon_mq.Pending.{retries_after}
use simon_mq.Ring.{Ring, new_ring}
use simon_mq.Ring.Valid.{Holds, new_ring-Holds}
use simon_mq.Durable.Wal.Names.{segment_file_name}
use simon_mq.Durable.Record
use simon_mq.Durable.Record.{Record}
use simon_mq.Durable.Wal.Scan.Recover.{file_of}
use simon_mq.Durable.Wal.Segments.{SegmentManager}
use simon_mq.Durable.Wal.Writer.{Writer, Io, fine, sync_fails, write_fails, mode_sync}
use simon_mq.Durable.Wal.Writer.Durability.{fresh_writer}
use simon_mq.Durable.Wal.Reader.{EndCheckpoint, Reader}
use simon_mq.Durable.Wal.Reader.Reads.{at}
use simon_mq.Durable.Wal.Log
use simon_mq.Durable.Wal.Log.{Log, LogRead, on, log_read, cleaned}
use simon_mq.Durable.Coordinator.Runs.{new_coordinator}
use simon_mq.Durable.Coordinator.{Coordinator}
use simon_mq.Durable.Worker.{QueueMsg, new_queue_msg, Round, process_msg}
use simon_mq.Durable.Worker.Rounds.{acks_ok, acked_by}
use simon_mq.Durable.Worker.Settled.{IsListed, IsSettled}
use simon_mq.Durable.Worker.Processed.{process_msg-subscribers}
use simon_mq.Durable.Worker.Logged.{AcksLogged, process_msg-AcksLogged}
use simon_mq.Durable.Broker.Calls.{Call, call_create, call_delete, call_enqueue, call_close, Runs}
use simon_mq.Tests.Fixtures.{orders, alice, two_subs, two_subs-IsMap, codec}

abbrev message : QueueMsg
message = record {
  msg_id = codes "m1";
  payload = codes "one";
  acked_subs = [];
  retry_map = [];
  sub_policy_snapshot = two_subs;
}

new_queue_msg-message : new_queue_msg (codes "m1") (codes "one") two_subs none ≡ message
unfolding new_queue_msg
new_queue_msg-message = refl

message-IsListed : IsListed message
message-IsListed = record { is_map = two_subs-IsMap; named = (refl, (refl, tt)) }

abbrev no_json : List ℕ → Option EndCheckpoint
no_json p = none

abbrev cord : Coordinator
cord = new_coordinator (on (fresh_writer 4 1000 mode_sync) none)

message-AcksLogged : AcksLogged codec orders cord message
unfolding has Dict.get
message-AcksLogged k e = absurd cc

-- Both take the message, and the append of bob's ack fails.
abbrev taking : SubPolicy → Bool
taking p = true

abbrev alice_only : GoString → Io
alice_only name = if str_eq name alice then fine else write_fails 7

process_msg-subscribers_example :
    (s : Round) × (q' : Ring QueueMsg) × (process_msg codec orders alice_only taking new_ring cord
        message
      ≡ some (s, q'))
    × ((k : GoString)
        → has s.msg.acked_subs k ≡ (
            has message.acked_subs k
            || acked_by taking
                (acks_ok (some true) alice_only)
                (Dict.get two_subs k)
                (Dict.get message.retry_map k)
                k))
    × ((k : GoString)
        → Dict.get s.msg.retry_map k ≡ (
            if has message.acked_subs k
            then Dict.get message.retry_map k
            else retries_after taking (Dict.get two_subs k) (Dict.get message.retry_map k)))
    × (s.any_subs_remaining ≡ false ↔ IsSettled s.msg)
    × Holds q' (if s.any_subs_remaining then s.msg ∷ [] else [])
process_msg-subscribers_example =
    process_msg-subscribers codec orders alice_only taking new_ring [] cord message new_ring-Holds
      message-IsListed

process_msg-AcksLogged_example :
    (s : Round) × (q' : Ring QueueMsg) × (process_msg codec orders alice_only taking new_ring cord
        message
      ≡ some (s, q'))
    × AcksLogged codec orders s.cord s.msg
process_msg-AcksLogged_example =
    process_msg-AcksLogged codec orders alice_only taking new_ring [] cord message new_ring-Holds
      (λ e. cc) message-AcksLogged

abbrev usage : List Call
usage =
    call_create fine orders
    ∷ call_create fine orders
    ∷ call_enqueue fine (codes "u1") orders (codes "one")
    ∷ call_delete sync_fails orders
    ∷ call_delete fine orders
    ∷ call_close
    ∷ []

-- The log of a start that finds the creation of a queue.
abbrev creation : Record
creation = record { lsn = 1; op_type = Record.op_create_queue; queue_name = orders; payload = [] }

abbrev found : SegmentManager
found = record {
  files = (segment_file_name 1, file_of (creation ∷ [])) ∷ [];
  segments = segment_file_name 1 ∷ [];
  ckpt_segments = [];
  ckpt_threshold = 4;
}

abbrev started : Writer
started = record {
  sm = found;
  file = segment_file_name 1;
  current_size = length (file_of (creation ∷ []));
  max_seg_size = 1000;
  next_lsn = 2;
  mode = mode_sync;
}

abbrev reader : Option Reader
reader = some (record { current = segment_file_name 1; rest = file_of (creation ∷ []) })

abbrev old_log : Log
old_log = on started reader

abbrev read_log : LogRead
read_log =
    log_read (creation ∷ [])
      (on (record started { sm = cleaned (at no_json found (creation ∷ [])) }) reader)
