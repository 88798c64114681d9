-- ===== src/Durable/Compaction.antt =====
-- durable-mq/coordinator/checkpointing.go: what a checkpoint keeps of a window of the log.
-- Records are pointers that nobody writes through: they are values here. A range over a map visits
-- its entries in the order of the list.
pub mod Policies
pub mod Kept
pub mod Good
pub mod Steps
pub mod Creations
pub mod Replays
use simon_mq.Base.{
  ℕ, ◌==◌, Option, none, some, List, [], ◌∷◌, ◌++◌, length, GoString, str_eq, if◌then◌else◌,
}
use simon_mq.Dict.{Dict, Set, get, has, put, delete}
use simon_mq.Model.{SubPolicy}
use simon_mq.Durable.Model.{Codec, Enqueue, Ack}
use simon_mq.Durable.Record
use simon_mq.Durable.Record.{Record}

pub record CompactionState : Type 0 where
  pub created_queues : Dict Record
  pub created_subs : Dict (Dict Record)
  pub in_flight_messages : Dict Record
  pub remaining_subs : Dict Set
  pub in_flight_acks : Dict (Dict Record)

abbrev pub new_compaction_state : CompactionState
new_compaction_state = record {
  created_queues = [];
  created_subs = [];
  in_flight_messages = [];
  remaining_subs = [];
  in_flight_acks = [];
}

-- A missing map reads as the empty one.
abbrev pub or_empty {ℓ} : {V : Type ℓ} → Option (Dict V) → Dict V
or_empty none = []
or_empty (some m) = m

unfoldable pub apply_create_queue : CompactionState → Record → CompactionState
apply_create_queue s rec = record s {
  created_queues = put s.created_queues rec.queue_name rec;
  created_subs = put s.created_subs rec.queue_name [];
}

abbrev pub forget_message : CompactionState → GoString → CompactionState
forget_message s msg_id = record s {
  in_flight_messages = delete s.in_flight_messages msg_id;
  remaining_subs = delete s.remaining_subs msg_id;
  in_flight_acks = delete s.in_flight_acks msg_id;
}

-- The loop over the messages in flight; the entries are those before the loop.
unfoldable pub forget_messages_of : CompactionState → GoString → Dict Record → CompactionState
forget_messages_of s q_name [] = s
forget_messages_of s q_name ((msg_id, enq_rec) ∷ entries) =
    forget_messages_of (if str_eq enq_rec.queue_name q_name then forget_message s msg_id else s)
      q_name entries

unfoldable pub apply_delete_queue : CompactionState → Record → CompactionState
apply_delete_queue s rec =
    forget_messages_of
      (record s {
        created_queues = delete s.created_queues rec.queue_name;
        created_subs = delete s.created_subs rec.queue_name;
      })
      rec.queue_name s.in_flight_messages

abbrev pub names_of : Set → Dict SubPolicy → Set
names_of out [] = out
names_of out ((k, sub) ∷ subs) = names_of (put out sub.sub_name tt) subs

-- A message that nobody subscribes to is dropped.
abbrev pub note_enqueue : Option Enqueue → CompactionState → Record → CompactionState
note_enqueue none s rec = s
note_enqueue (some enq) s rec = if length enq.sub_list == 0 then s else (record s {
  in_flight_messages = put s.in_flight_messages enq.msg_id rec;
  remaining_subs = put s.remaining_subs enq.msg_id (names_of [] enq.sub_list);
})

-- Deleting from a missing map does nothing.
abbrev pub drop_sub : Option Set → Dict Set → GoString → GoString → Dict Set
drop_sub none remaining msg_id sub_name = remaining
drop_sub (some subs) remaining msg_id sub_name = put remaining msg_id (delete subs sub_name)

abbrev pub note_ack : Option Ack → CompactionState → Record → CompactionState
note_ack none s rec = s
note_ack (some ack) s rec =
    let remaining =
      drop_sub (get s.remaining_subs ack.msg_id) s.remaining_subs ack.msg_id ack.sub_name in
    let acks = put (or_empty (get s.in_flight_acks ack.msg_id)) ack.sub_name rec in
    let s' : CompactionState = record s {
      remaining_subs = remaining;
      in_flight_acks = put s.in_flight_acks ack.msg_id acks;
    } in
    if length (or_empty (get remaining ack.msg_id)) == 0 then forget_message s' ack.msg_id else s'

abbrev pub change_subs :
    Option (Dict Record)
    → CompactionState
    → GoString
    → (Dict Record → Dict Record)
    → CompactionState
change_subs none s q_name f = s
change_subs (some subs) s q_name f = record s { created_subs = put s.created_subs q_name (f subs) }

abbrev pub note_update : Option SubPolicy → CompactionState → Record → CompactionState
note_update none s rec = s
note_update (some p) s rec =
    change_subs (get s.created_subs rec.queue_name) s rec.queue_name
      (λ subs. put subs p.sub_name rec)

abbrev pub note_delete : Option SubPolicy → CompactionState → Record → CompactionState
note_delete none s rec = s
note_delete (some p) s rec =
    change_subs (get s.created_subs rec.queue_name) s rec.queue_name
      (λ subs. delete subs p.sub_name)

unfoldable pub records_of : Dict Record → List Record
records_of [] = []
records_of ((k, rec) ∷ m) = rec ∷ records_of m

unfoldable pub records_of_all : Dict (Dict Record) → List Record
records_of_all [] = []
records_of_all ((k, m) ∷ ms) = records_of m ++ records_of_all ms

unfoldable pub compacted : CompactionState → List Record
compacted s =
    records_of s.created_queues
    ++ records_of_all s.created_subs
    ++ records_of s.in_flight_messages
    ++ records_of_all s.in_flight_acks

module _ (codec : Codec) where
  unfoldable pub apply_enqueue : CompactionState → Record → CompactionState
  apply_enqueue s rec =
      if has s.created_queues rec.queue_name
      then note_enqueue (codec.decode_enqueue rec.payload) s rec
      else s

  unfoldable pub apply_ack : CompactionState → Record → CompactionState
  apply_ack s rec = note_ack (codec.decode_ack rec.payload) s rec

  unfoldable pub apply_update_sub_policy : CompactionState → Record → CompactionState
  apply_update_sub_policy s rec = note_update (codec.decode_sub_policy rec.payload) s rec

  unfoldable pub apply_delete_sub_policy : CompactionState → Record → CompactionState
  apply_delete_sub_policy s rec = note_delete (codec.decode_sub_policy rec.payload) s rec

  -- The switch of the loop; a record of another kind is ignored.
  unfoldable pub apply_record : CompactionState → Record → CompactionState
  apply_record s rec =
      if rec.op_type == Record.op_enqueue
      then apply_enqueue s rec
      else if rec.op_type == Record.op_ack
      then apply_ack s rec
      else if rec.op_type == Record.op_create_queue
      then apply_create_queue s rec
      else if rec.op_type == Record.op_delete_queue
      then apply_delete_queue s rec
      else if rec.op_type == Record.op_update_sub_policy
      then apply_update_sub_policy s rec
      else if rec.op_type == Record.op_delete_sub_policy
      then apply_delete_sub_policy s rec
      else s

  unfoldable pub apply_records : CompactionState → List Record → CompactionState
  apply_records s [] = s
  apply_records s (rec ∷ recs) = apply_records (apply_record s rec) recs

  unfoldable pub compact_records : List Record → List Record
  compact_records recs = compacted (apply_records new_compaction_state recs)
