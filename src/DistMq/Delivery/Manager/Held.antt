-- ===== src/DistMq/Delivery/Manager/Held.antt =====
-- dist-mq/delivery/manager.go with worker.go: a term of the leader, in which the calls of the manager
-- and the steps of the workers interleave. There is one worker for each queue; between `Pop` and
-- the end of `Process` it has one message in hand.
use simon_mq.Base.{
  ℕ, ◌+◌, ◌≡◌, refl, inl, inr, Bool, false, Option, none, some, List, [], ◌∷◌, ◌++◌, arith,
  GoString, str_eq, if◌then◌else◌, ◌>>=◌, Bool-cases,
}
use simon_mq.Dict.{Dict, get, put}
use simon_mq.Model.{SubPolicy}
use simon_mq.Ring.Valid.{Holds, new_ring-Holds}
use simon_mq.DistMq.Storage.{MessageInfo}
use simon_mq.DistMq.Delivery.Queue
use simon_mq.DistMq.Delivery.Queue.{Queue, QueueMsg, new_queue_msg}
use simon_mq.DistMq.Delivery.Worker.{Report, process}
use simon_mq.DistMq.Delivery.Manager.{Manager, or_new, schedule, forget}

-- The messages in the hands of the workers, by queue.
pub record System : Type 0 where
  pub manager : Manager
  pub hands : Dict (Option QueueMsg)

pub data Event : Type 0 where
  scheduled : GoString → MessageInfo → Event
  popped : GoString → Event
  processed : GoString → (SubPolicy → Bool) → Bool → Event

abbrev pub in_hand : Option (Option QueueMsg) → Option QueueMsg
in_hand none = none
in_hand (some o) = o

abbrev pub popped_to : System → GoString → Option QueueMsg × Queue → System
popped_to sys name (msg, q) = record {
  manager = record sys.manager { queues = put sys.manager.queues name q };
  hands = put sys.hands name msg;
}

-- A worker with a free hand takes the next message of its queue.
abbrev pub pop_from : Option Queue → Option QueueMsg → GoString → System → Option System
pop_from none hand name sys = some sys
pop_from (some q) (some busy) name sys = some sys
pop_from (some q) none name sys = do p ← Queue.pop q; some (popped_to sys name p)

unfoldable pub pop_step : GoString → System → Option System
pop_step name sys = pop_from (get sys.manager.queues name) (in_hand (get sys.hands name)) name sys

abbrev pub after_report : Manager → GoString → Report → Manager
after_report m name r =
    let m' : Manager = record m { queues = put m.queues name r.queue } in
    if r.done then forget m' r.msg.msg_id else m'

-- A worker ends its pass over the message in its hand.
abbrev pub process_in :
    Option Queue → Option QueueMsg → GoString → (SubPolicy → Bool) → Bool → System → Option System
process_in none hand name sent ack_ok sys = some sys
process_in (some q) none name sent ack_ok sys = some sys
process_in (some q) (some msg) name sent ack_ok sys = do
  r ← process sent false ack_ok q msg
  some (record { manager = after_report sys.manager name r; hands = put sys.hands name none })

unfoldable pub process_step : GoString → (SubPolicy → Bool) → Bool → System → Option System
process_step name sent ack_ok sys =
    process_in (get sys.manager.queues name) (in_hand (get sys.hands name)) name sent ack_ok sys

unfoldable pub step : System → Event → Option System
step sys (scheduled name info) = do
  m ← schedule sys.manager name info
  some (record sys { manager = m })
step sys (popped name) = pop_step name sys
step sys (processed name sent ack_ok) = process_step name sent ack_ok sys

unfoldable pub steps : System → List Event → Option System
steps sys [] = some sys
steps sys (e ∷ es) = do sys' ← step sys e; steps sys' es

-- Whether a message has that id, and how often one stands in a list.
abbrev pub one : GoString → QueueMsg → ℕ
one id m = if str_eq m.msg_id id then 1 else 0

abbrev pub count_id : GoString → List QueueMsg → ℕ
count_id id [] = 0
count_id id (m ∷ ms) = one id m + count_id id ms

abbrev pub count_hand : GoString → Option QueueMsg → ℕ
count_hand id none = 0
count_hand id (some m) = one id m

pub count_id-append :
    (id : GoString) (ms : List QueueMsg) (m : QueueMsg)
    → count_id id (ms ++ m ∷ []) ≡ count_id id ms + one id m
count_id-append id [] m = omega arith
count_id-append id (x ∷ ms) m = omega (arith, count_id-append id ms m)

-- The queues hold these messages.
abbrev pub QueuesHold : Dict Queue → Dict (List QueueMsg) → Type 0
QueuesHold [] [] = Unit
QueuesHold ((k, q) ∷ qs) ((j, ms) ∷ cs) = (k ≡ j) × Holds q.ring ms × QueuesHold qs cs
QueuesHold [] (c ∷ cs) = ⊥
QueuesHold (q ∷ qs) [] = ⊥

abbrev pub or_empty : Option (List QueueMsg) → List QueueMsg
or_empty none = []
or_empty (some ms) = ms

pub QueuesHold-put :
    (qs : Dict Queue) (cs : Dict (List QueueMsg)) (name : GoString) (q : Queue) (ms : List QueueMsg)
    → QueuesHold qs cs
    → Holds q.ring ms
    → QueuesHold (put qs name q) (put cs name ms)
unfolding put
QueuesHold-put [] [] name q ms h g = (refl, g, tt)
QueuesHold-put [] (c ∷ cs) name q ms h g = absurd h
QueuesHold-put (p ∷ qs) [] name q ms h g = absurd h
QueuesHold-put ((k, p) ∷ qs) ((j, xs) ∷ cs) name q ms h g = elim (Bool-cases (str_eq j name)) [
  | inl e ↦ rw (h.0, e) (refl, g, h.2)
  | inr e ↦ rw (h.0, e) (refl, h.1, QueuesHold-put qs cs name q ms h.2 g)
]

-- Each queue that there may be, new ones included.
pub queue-Holds :
    (qs : Dict Queue) (cs : Dict (List QueueMsg)) (name : GoString)
    → QueuesHold qs cs
    → Holds (or_new (get qs name) name).ring (or_empty (get cs name))
unfolding get
queue-Holds [] [] name h = new_ring-Holds
queue-Holds [] (c ∷ cs) name h = absurd h
queue-Holds (p ∷ qs) [] name h = absurd h
queue-Holds ((k, p) ∷ qs) ((j, xs) ∷ cs) name h = elim (Bool-cases (str_eq j name)) [
  | inl e ↦ rw (h.0, e) h.1
  | inr e ↦ rw (h.0, e) (queue-Holds qs cs name h.2)
]
