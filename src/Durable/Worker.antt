-- ===== src/Durable/Worker.antt =====
-- durable-mq/queue/worker.go, and the messages of durable-mq/queue/queue.go: one round over a
-- message. What the environment decides are arguments: the outcome of each request (`sent`), and by
-- subscriber what the operating system does with the append of its ack (`io`). The results arrive in the order of
-- the map. An absent result is a panic of the ring.
pub mod Rounds
pub mod Settled
pub mod Processed
pub mod Logged
use simon_mq.Base.{
  ℕ, ◌+◌, ◌==◌, Bool, true, false, ◌||◌, Option, none, some, List, [], ◌∷◌, GoString, length,
  if◌then◌else◌, ◌>>=◌,
}
use simon_mq.Dict.{Dict, Set, get, put}
use simon_mq.Model.{SubPolicy, reached, or_zero, limit_of}
use simon_mq.Pending.{pending_into}
use simon_mq.Ring
use simon_mq.Ring.{Ring}
use simon_mq.Durable.Model.{Codec}
use simon_mq.Durable.Wal.Writer.{Io}
use simon_mq.Durable.Coordinator.{Coordinator, Result, ok, err, ack}

pub record QueueMsg : Type 0 where
  pub msg_id : GoString
  pub payload : GoString
  pub acked_subs : Set
  pub retry_map : Dict ℕ
  pub sub_policy_snapshot : Dict SubPolicy

-- `none` is a nil map.
abbrev pub or_empty : Option Set → Set
or_empty none = []
or_empty (some acked) = acked

unfoldable pub new_queue_msg : GoString → GoString → Dict SubPolicy → Option Set → QueueMsg
new_queue_msg msg_id payload snapshot acked = record {
  msg_id = msg_id;
  payload = payload;
  acked_subs = or_empty acked;
  retry_map = [];
  sub_policy_snapshot = snapshot;
}

unfoldable pub policy_by_name : QueueMsg → Dict SubPolicy
policy_by_name msg = pending_into [] msg.sub_policy_snapshot msg.acked_subs

pub record DeliveryResult : Type 0 where
  pub sub_name : GoString
  pub success : Bool

unfoldable pub results_of : (SubPolicy → Bool) → Dict SubPolicy → List DeliveryResult
results_of sent [] = []
results_of sent ((name, sub) ∷ pending) =
    record { sub_name = sub.sub_name; success = sent sub } ∷ results_of sent pending

-- What the loop over the results changes.
pub record Round : Type 0 where
  pub cord : Coordinator
  pub msg : QueueMsg
  pub any_subs_remaining : Bool

-- A failed request is counted.
abbrev pub counted : QueueMsg → DeliveryResult → QueueMsg
counted msg result = if result.success then msg else record msg {
  retry_map = put msg.retry_map result.sub_name (or_zero (get msg.retry_map result.sub_name) + 1);
}

abbrev pub is_acked : Dict SubPolicy → QueueMsg → DeliveryResult → Bool
is_acked policies msg result =
    result.success
    || reached (or_zero (get msg.retry_map result.sub_name) + 1)
        (limit_of (get policies result.sub_name))

-- A subscriber whose ack is not in the log stays pending.
abbrev pub note_ack : Result (Unit {0}) × Coordinator → Round → GoString → Round
note_ack (ok u, cord) s sub_name = record s {
  cord = cord;
  msg = record s.msg { acked_subs = put s.msg.acked_subs sub_name tt };
}
note_ack (err e, cord) s sub_name = record s { cord = cord; any_subs_remaining = true }

module _ (codec : Codec) (queue_name : GoString) (io : GoString → Io) where
  unfoldable pub note_result : Dict SubPolicy → Round → DeliveryResult → Round
  note_result policies s result =
      if is_acked policies s.msg result
      then note_ack (ack codec (io result.sub_name) s.cord queue_name s.msg.msg_id result.sub_name)
          (record s { msg = counted s.msg result }) result.sub_name
      else record s { msg = counted s.msg result; any_subs_remaining = true }

  unfoldable pub note_results : Dict SubPolicy → Round → List DeliveryResult → Round
  note_results policies s [] = s
  note_results policies s (result ∷ results) =
      note_results policies (note_result policies s result) results

  unfoldable pub deliver : (SubPolicy → Bool) → Coordinator → QueueMsg → Round
  deliver sent cord msg =
      note_results (policy_by_name msg)
        (record { cord = cord; msg = msg; any_subs_remaining = false })
        (results_of sent (policy_by_name msg))

  abbrev pub requeue : Ring QueueMsg → Round → Option (Round × Ring QueueMsg)
  requeue q s =
      if s.any_subs_remaining then (do q' ← Ring.add q s.msg; some (s, q')) else some (s, q)

  unfoldable pub process_msg :
      (SubPolicy → Bool) → Ring QueueMsg → Coordinator → QueueMsg → Option (Round × Ring QueueMsg)
  process_msg sent q cord msg =
      if length (policy_by_name msg) == 0
      then some (record { cord = cord; msg = msg; any_subs_remaining = false }, q)
      else requeue q (deliver sent cord msg)
