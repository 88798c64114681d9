-- ===== src/Durable/Broker/Valid.antt =====
-- durable-mq/queue/broker.go: the count of the queues and their rings, in every state of the broker.
use simon_mq.Base.{
  ◌≤◌, ◌≡◌, refl, inl, inr, true, false, Option, some, List, [], ◌∷◌, ◌++◌, arith, GoString, length,
  leb, Bool-cases, Option-cases,
}
use simon_mq.Dict.{Dict, get, has, put}
use simon_mq.Dict.Keys.{IsMap, put-IsMap, delete-IsMap, length-put, length-delete}
use simon_mq.Dict.Entries.{each-put, each-delete}
use simon_mq.Ring.{Ring, new_ring}
use simon_mq.Ring.Valid.{Holds, new_ring-Holds}
use simon_mq.Ring.Add.{add_lem}
use simon_mq.Durable.Delivery.{Delivery, DeliveryMessageInfo}
use simon_mq.Durable.Coordinator.{Coordinator}
use simon_mq.Durable.Worker.{QueueMsg, new_queue_msg}
use simon_mq.Durable.Broker.{
  Broker, new_broker, added, removed, enqueue_from_wal, has_unacked_subs, restore_messages,
  restore_delivery,
}

abbrev pub HoldsSome : GoString → Ring QueueMsg → Type 0
HoldsSome k q = (xs : List QueueMsg) × Holds q xs

pub record IsValid (b : Broker) : Type 0 where
  pub is_map : IsMap b.queues
  pub counted : b.num_queues ≡ length b.queues
  pub few : b.num_queues ≤ 128
  pub rings : (k : GoString) (q : Ring QueueMsg) → get b.queues k ≡ some q → HoldsSome k q

pub new_broker-IsValid : (cord : Coordinator) → IsValid (new_broker cord)
unfolding get
new_broker-IsValid cord = record {
  is_map = tt;
  counted = refl;
  few = omega arith;
  rings = λ k q e. absurd cc;
}

pub with_cord : (b : Broker) (cord : Coordinator) → IsValid b → IsValid (record b { cord = cord })
with_cord b cord v = record { is_map = v.is_map; counted = v.counted; few = v.few; rings = v.rings }

pub added-IsValid :
    (b : Broker) (name : GoString)
    → IsValid b
    → has b.queues name ≡ false
    → leb 128 b.num_queues ≡ false
    → IsValid (added b name)
added-IsValid b name v e f = record {
  is_map = put-IsMap b.queues name new_ring v.is_map;
  counted = ground (arith, v.counted, e, length-put b.queues name new_ring);
  few = ground (arith, f);
  rings = each-put HoldsSome b.queues name v.rings new_ring ([], new_ring-Holds);
}

pub removed-IsValid :
    (b : Broker) (name : GoString) → IsValid b → has b.queues name ≡ true → IsValid (removed b name)
removed-IsValid b name v e = record {
  is_map = delete-IsMap b.queues name v.is_map;
  counted = ground (arith, v.counted, e, length-delete b.queues name v.is_map);
  few = ground (arith, v.few);
  rings = each-delete HoldsSome b.queues name v.rings;
}

-- A ring that takes the place of another.
pub replaced-IsValid :
    (b : Broker) (name : GoString) (q q' : Ring QueueMsg) (xs : List QueueMsg)
    → IsValid b
    → get b.queues name ≡ some q
    → Holds q' xs
    → IsValid (record b { queues = put b.queues name q' })
unfolding has
replaced-IsValid b name q q' xs v e h = record {
  is_map = put-IsMap b.queues name q' v.is_map;
  counted = ground (arith, v.counted, e, length-put b.queues name q');
  few = v.few;
  rings = each-put HoldsSome b.queues name v.rings q' (xs, h);
}

-- A step that does not panic and keeps a broker valid.
abbrev pub Kept : Option Broker → Type 0
Kept o = (b : Broker) × (o ≡ some b) × IsValid b

enqueue_from_wal-IsValid :
    (b : Broker) (queue_name msg_id : GoString) (info : DeliveryMessageInfo)
    → IsValid b
    → Kept (enqueue_from_wal b queue_name msg_id info)
unfolding enqueue_from_wal
enqueue_from_wal-IsValid b queue_name msg_id info v =
    elim (Option-cases (get b.queues queue_name)) [
      | inl e ↦ (b, rw (e, enqueue_from_wal) refl, v)
      | inr (q, e) ↦
          let msg = new_queue_msg msg_id info.content info.sub_list (some info.acked_subs) in
          let (xs, h) = v.rings queue_name q e in
          let (q', did, held, _) = add_lem q xs msg h in
          (
            record b { queues = put b.queues queue_name q' },
            rw (e, enqueue_from_wal) (rw did refl),
            replaced-IsValid b queue_name q q' (xs ++ msg ∷ []) v e held,
          )
    ]

restore_messages-IsValid :
    (b : Broker) (queue_name : GoString) (messages : Dict DeliveryMessageInfo)
    → IsValid b
    → Kept (restore_messages b queue_name messages)
unfolding restore_messages
restore_messages-IsValid b queue_name [] v = (b, refl, v)
restore_messages-IsValid b queue_name ((msg_id, info) ∷ messages) v =
    elim (Bool-cases (has_unacked_subs info.sub_list info.acked_subs)) [
      | inl e ↦
          let (b1, did, v1) = enqueue_from_wal-IsValid b queue_name msg_id info v in
          rw (e, did) (restore_messages-IsValid b1 queue_name messages v1)
      | inr e ↦ rw e (restore_messages-IsValid b queue_name messages v)
    ]

pub restore_delivery-IsValid :
    (b : Broker) (deli : Delivery) → IsValid b → Kept (restore_delivery b deli)
unfolding restore_delivery
restore_delivery-IsValid b [] v = (b, refl, v)
restore_delivery-IsValid b ((queue_name, messages) ∷ deli) v =
    elim (Bool-cases (has b.queues queue_name)) [
      | inl e ↦
          let (b1, did, v1) = restore_messages-IsValid b queue_name messages v in
          rw (e, did) (restore_delivery-IsValid b1 deli v1)
      | inr e ↦ rw e (restore_delivery-IsValid b deli v)
    ]
