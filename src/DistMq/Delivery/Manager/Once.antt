-- ===== src/DistMq/Delivery/Manager/Once.antt =====
-- dist-mq/delivery: a term of the leader holds each message in flight once.
use simon_mq.Base.{
  ◌+◌, ◌≡◌, refl, inl, inr, false, Option, none, some, List, [], ◌∷◌, ◌++◌, arith, GoString,
  str_eq_iff, length, ◌==◌, if◌then◌else◌, Bool-cases,
}
use simon_mq.Dict.{Dict, get, has, put}
use simon_mq.Dict.Laws.{has-put}
use simon_mq.Dict.Totals.{total, weight_at, total-put}
use simon_mq.Ring.Add.{add_lem}
use simon_mq.DistMq.Storage.{MessageInfo}
use simon_mq.DistMq.Delivery.Queue
use simon_mq.DistMq.Delivery.Queue.{Queue, QueueMsg, new_queue_msg}
use simon_mq.DistMq.Delivery.Manager.{Manager, queue_for, schedule, info_pending}
use simon_mq.DistMq.Delivery.Manager.Held.{
  System, in_hand, one, count_id, count_hand, count_id-append, QueuesHold, or_empty, QueuesHold-put,
  queue-Holds,
}

-- The messages `cs` stand in the queues, and each id that is in flight is held once, in a queue or in
-- a hand, and no other is held.
pub record Once (sys : System) (cs : Dict (List QueueMsg)) : Type 0 where
  pub queues : QueuesHold sys.manager.queues cs
  pub once :
      (id : GoString)
      → total (count_id id) cs + total (count_hand id) sys.hands
        ≡ (if has sys.manager.in_flight id then 1 else 0)

abbrev pub HoldsOnce : System → Type 0
HoldsOnce sys = (cs : Dict (List QueueMsg)) × Once sys cs

abbrev pub Kept : Option System → Type 0
Kept o = (sys : System) × (o ≡ some sys) × HoldsOnce sys

weight-contents :
    (id : GoString) (o : Option (List QueueMsg))
    → weight_at (count_id id) o ≡ count_id id (or_empty o)
weight-contents id none = refl
weight-contents id (some ms) = refl

weight-hand :
    (id : GoString) (o : Option (Option QueueMsg))
    → weight_at (count_hand id) o ≡ count_hand id (in_hand o)
weight-hand id none = refl
weight-hand id (some o) = refl

module _ (cs : Dict (List QueueMsg)) (hands : Dict (Option QueueMsg)) (name id : GoString) where
  -- The count of an id when the messages of a queue are replaced.
  pub contents-put :
      (ms : List QueueMsg)
      → total (count_id id) (put cs name ms) + count_id id (or_empty (get cs name))
        ≡ total (count_id id) cs + count_id id ms
  contents-put ms =
      omega (arith, total-put (count_id id) cs name ms, weight-contents id (get cs name))

  pub contents-append :
      (m : QueueMsg)
      → total (count_id id) (put cs name (or_empty (get cs name) ++ m ∷ []))
        ≡ total (count_id id) cs + one id m
  contents-append m = omega (
    arith,
    contents-put (or_empty (get cs name) ++ m ∷ []),
    count_id-append id (or_empty (get cs name)) m,
  )

  pub hands-put :
      (o : Option QueueMsg)
      → total (count_hand id) (put hands name o) + count_hand id (in_hand (get hands name))
        ≡ total (count_hand id) hands + count_hand id o
  hands-put o =
      omega (arith, total-put (count_hand id) hands name o, weight-hand id (get hands name))

schedule-Once :
    (sys : System) (cs : Dict (List QueueMsg)) (name : GoString) (info : MessageInfo)
    → Once sys cs
    → has sys.manager.in_flight info.msg_id ≡ false
    → (q : Queue) × (Queue.add (queue_for sys.manager name) (new_queue_msg info) ≡ some q)
      × HoldsOnce (record {
        manager = record sys.manager {
          queues = put sys.manager.queues name q;
          in_flight = put sys.manager.in_flight info.msg_id tt;
        };
        hands = sys.hands;
      })
unfolding Queue.add queue_for new_queue_msg
schedule-Once sys cs name info h e =
    let ms = or_empty (get cs name) in
    let msg : QueueMsg = new_queue_msg info in
    let (ring, added, held, woken) =
      add_lem (queue_for sys.manager name).ring ms msg
        (queue-Holds sys.manager.queues cs name h.queues) in
    let q : Queue = record (queue_for sys.manager name) { ring = ring } in
    (
      q,
      rw added refl,
      (
        put cs name (ms ++ msg ∷ []),
        record {
          queues = QueuesHold-put sys.manager.queues cs name q (ms ++ msg ∷ []) h.queues held;
          once = λ id. ground (
            arith,
            contents-append cs sys.hands name id msg,
            h.once id,
            has-put sys.manager.in_flight info.msg_id id tt,
            str_eq_iff info.msg_id id,
            e,
          );
        },
      ),
    )

pub schedule-HoldsOnce :
    (sys : System) (name : GoString) (info : MessageInfo)
    → HoldsOnce sys
    → (m : Manager) × (schedule sys.manager name info ≡ some m)
      × HoldsOnce (record sys { manager = m })
unfolding schedule
schedule-HoldsOnce sys name info h = elim (Bool-cases sys.manager.running) [
  | inr e ↦ (sys.manager, rw e refl, h)
  | inl e ↦ elim (Bool-cases (has sys.manager.in_flight info.msg_id)) [
    | inl f ↦ (sys.manager, rw (e, f) refl, h)
    | inr f ↦ elim (Bool-cases (length (info_pending info) == 0)) [
      | inl g ↦ (sys.manager, rw (e, f, g) refl, h)
      | inr g ↦
          let (q, added, held) = schedule-Once sys h.0 name info h.1 f in
          (
            record sys.manager {
              queues = put sys.manager.queues name q;
              in_flight = put sys.manager.in_flight info.msg_id tt;
            },
            ground (arith, e, f, g, added),
            held,
          )
    ]
  ]
]
