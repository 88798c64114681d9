-- ===== src/Durable/Broker.antt =====
-- durable-mq/queue/broker.go: the queues over the coordinator. A queue is its ring; its worker stops
-- when the queue leaves the map. What the operating system does with an append is an argument, and so is the
-- identifier that the uuid package makes. An absent result is a panic of a ring, or fuel that has run out.
pub mod Valid
pub mod Calls
use simon_mq.Base.{
  ℕ, ◌+◌, ◌-◌, Bool, true, false, Option, none, some, List, [], ◌∷◌, ◌++◌, GoString, codes, length,
  leb, ◌==◌, if◌then◌else◌, ◌>>=◌,
}
use simon_mq.Dict.{Dict, Set, get, has, put, delete}
use simon_mq.Model.{SubPolicy}
use simon_mq.Ring
use simon_mq.Ring.{Ring, new_ring}
use simon_mq.Durable.Model.{Codec}
use simon_mq.Durable.Catalog.{return_queue_names}
use simon_mq.Durable.Delivery.{Delivery, DeliveryMessageInfo}
use simon_mq.Durable.Coordinator
use simon_mq.Durable.Wal.Writer.{Io, fine}
use simon_mq.Durable.Wal.Reader.{EndCheckpoint}
use simon_mq.Durable.Coordinator.{
  Coordinator, CoordError, Result, ok, err, ReplayResult, replayed, not_replayed, replay_crashed,
  replay_log,
}
use simon_mq.Durable.Worker.{QueueMsg, new_queue_msg}

pub record Broker : Type 0 where
  pub queues : Dict (Ring QueueMsg)
  pub num_queues : ℕ
  pub cord : Coordinator

pub data BrokerError : Type 0 where
  queue_exists queue_not_found : GoString → BrokerError
  too_many_queues : ℕ → BrokerError
  cord_error : CoordError → BrokerError

abbrev pub Outcome : Type 0
Outcome = Option BrokerError × Broker

abbrev pub new_broker : Coordinator → Broker
new_broker cord = record { queues = []; num_queues = 0; cord = cord }

abbrev pub added : Broker → GoString → Broker
added b name = record b { queues = put b.queues name new_ring; num_queues = b.num_queues + 1 }

abbrev pub removed : Broker → GoString → Broker
removed b name = record b { queues = delete b.queues name; num_queues = b.num_queues - 1 }

-- The change, once it is in the log.
abbrev pub logged : Result (Unit {0}) × Coordinator → Broker → (Broker → Broker) → Outcome
logged (ok u, cord) b change = (none, change (record b { cord = cord }))
logged (err e, cord) b change = (some (cord_error e), record b { cord = cord })

unfoldable pub enqueue_from_wal : Broker → GoString → GoString → DeliveryMessageInfo → Option Broker
enqueue_from_wal b queue_name msg_id info = elim (get b.queues queue_name) [
  | none ↦ some b
  | some q ↦ do
    q' ← Ring.add q (new_queue_msg msg_id info.content info.sub_list (some info.acked_subs))
    some (record b { queues = put b.queues queue_name q' })
]

-- Whether a subscriber has not acked the message.
unfoldable pub has_unacked_subs : Dict SubPolicy → Set → Bool
has_unacked_subs [] acked = false
has_unacked_subs ((sub_name, policy) ∷ sub_list) acked =
    if has acked sub_name then has_unacked_subs sub_list acked else true

-- The messages of one queue.
unfoldable pub restore_messages : Broker → GoString → Dict DeliveryMessageInfo → Option Broker
restore_messages b queue_name [] = some b
restore_messages b queue_name ((msg_id, info) ∷ messages) = do
  b' ←
      if has_unacked_subs info.sub_list info.acked_subs
      then enqueue_from_wal b queue_name msg_id info
      else some b
  restore_messages b' queue_name messages

unfoldable pub restore_delivery : Broker → Delivery → Option Broker
restore_delivery b [] = some b
restore_delivery b ((queue_name, messages) ∷ deli) = do
  b' ← if has b.queues queue_name then restore_messages b queue_name messages else some b
  restore_delivery b' deli

module _ (codec : Codec) where
  unfoldable pub create_queue : Io → Broker → GoString → Bool → Outcome
  create_queue io b name from_wal =
      if has b.queues name
      then (some (queue_exists name), b)
      else if leb 128 b.num_queues
      then (some (too_many_queues b.num_queues), b)
      else if from_wal
      then (none, added b name)
      else logged (Coordinator.create_queue codec io b.cord name) b (λ b'. added b' name)

  unfoldable pub delete_queue : Io → Broker → GoString → Outcome
  delete_queue io b name =
      if has b.queues name
      then logged (Coordinator.delete_queue codec io b.cord name) b (λ b'. removed b' name)
      else (some (queue_not_found name), b)

  -- The log behind the coordinator is closed with it.
  unfoldable pub close : Broker → Broker
  close b = record b { queues = []; num_queues = 0 }

  abbrev pub enqueue_logged :
      Result (Dict SubPolicy) × Coordinator
      → Broker
      → Ring QueueMsg
      → GoString
      → GoString
      → GoString
      → Option Outcome
  enqueue_logged (err e, cord) b q queue_name msg_id payload =
      some (some (cord_error e), record b { cord = cord })
  enqueue_logged (ok policies, cord) b q queue_name msg_id payload = do
    q' ← Ring.add q (new_queue_msg msg_id payload policies none)
    some (none, record b { queues = put b.queues queue_name q'; cord = cord })

  abbrev pub message_id : GoString → GoString → GoString
  message_id queue_name uuid = queue_name ++ codes "-" ++ uuid

  unfoldable pub enqueue : Io → GoString → Broker → GoString → GoString → Option Outcome
  enqueue io uuid b queue_name payload = elim (get b.queues queue_name) [
    | none ↦ some (some (queue_not_found queue_name), b)
    | some q ↦
        enqueue_logged
          (Coordinator.enqueue codec io b.cord queue_name (message_id queue_name uuid) payload) b q
          queue_name (message_id queue_name uuid) payload
  ]

  -- AddSubscriber and UpdateSubscriber.
  unfoldable pub update_subscriber : Io → Broker → SubPolicy → GoString → Outcome
  update_subscriber io b metadata queue_name =
      logged (Coordinator.update_sub_policy codec io b.cord queue_name metadata) b (λ b'. b')

  unfoldable pub remove_subscriber : Io → Broker → GoString → GoString → Outcome
  remove_subscriber io b sub_name queue_name =
      logged (Coordinator.delete_sub_policy codec io b.cord queue_name sub_name) b (λ b'. b')

  -- An error of one queue does not end the loop.
  unfoldable pub restore_queues : Broker → List GoString → Broker
  restore_queues b [] = b
  restore_queues b (name ∷ names) = restore_queues ((create_queue fine b name true).1) names

-- The broker that `RestoreWAL` leaves; its error, with which the programs end; or a panic.
pub data Restored : Type 0 where
  restored : Broker → Restored
  restore_failed : CoordError → Restored
  restore_crashed : Restored

abbrev pub or_crash : Option Broker → Restored
or_crash none = restore_crashed
or_crash (some b) = restored b

module _ (codec : Codec) (decode_end_checkpoint : List ℕ → Option EndCheckpoint) where
  abbrev pub restore_replay : Option ReplayResult → Broker → Option Restored
  restore_replay none b = none
  restore_replay (some (not_replayed e)) b = some (restore_failed e)
  restore_replay (some replay_crashed) b = some restore_crashed
  restore_replay (some (replayed s log)) b = some (
      or_crash (
        restore_delivery
          (restore_queues codec (record b { cord = record { log = log; cat = s.cat } })
            (return_queue_names s.cat))
          s.deli))

  -- The log is read on the reader's fuel.
  unfoldable pub restore_wal : ℕ → Broker → Option Restored
  restore_wal fuel b = restore_replay (replay_log codec decode_end_checkpoint fuel b.cord) b
