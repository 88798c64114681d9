-- ===== src/DistMq/Delivery/Manager/Steps.antt =====
-- dist-mq/delivery: the steps of the workers and of the manager hold each message in flight once.
use simon_mq.Base.{
  ◌≡◌, refl, ap, subst, inl, inr, Bool, Option, none, some, List, [], ◌∷◌, ◌++◌, arith, GoString,
  str_eq, if◌then◌else◌, ◌>>=◌, Bool-cases,
}
use simon_mq.Dict.{Dict, get, put}
use simon_mq.Dict.Laws.{has-delete}
use simon_mq.Model.{SubPolicy}
use simon_mq.Ring.Valid.{Holds}
use simon_mq.DistMq.Delivery.Queue
use simon_mq.DistMq.Delivery.Queue.{Queue, QueueMsg, new_queue_msg}
use simon_mq.DistMq.Delivery.Queue.Fifo.{pop_ring_lem, pop_ring_empty}
use simon_mq.DistMq.Delivery.Worker.{Report}
use simon_mq.DistMq.Delivery.Worker.Reports.{process_kept}
use simon_mq.DistMq.Delivery.Manager.{or_new, forget}
use simon_mq.DistMq.Delivery.Manager.Held.{
  System, Event, scheduled, popped, processed, in_hand, popped_to, pop_from, pop_step, after_report,
  process_in, process_step, step, steps, count_id, count_hand, or_empty, QueuesHold-put,
  queue-Holds,
}
use simon_mq.DistMq.Delivery.Manager.Once.{
  Once, HoldsOnce, Kept, contents-put, contents-append, hands-put, schedule-HoldsOnce,
}

module _ (sys : System) (cs : Dict (List QueueMsg)) (h : Once sys cs) (name : GoString) where
  held_lem :
      (q : Queue) → get sys.manager.queues name ≡ some q → Holds q.ring (or_empty (get cs name))
  held_lem q e =
      subst (λ o. Holds (or_new o name).ring (or_empty (get cs name))) e
        (queue-Holds sys.manager.queues cs name h.queues)

  -- The first message goes from its queue into the hand.
  popped-Once :
      (q : Queue) (ms : List QueueMsg)
      → or_empty (get cs name) ≡ ms
      → Holds q.ring ms
      → in_hand (get sys.hands name) ≡ none
      → Kept (do p ← Queue.pop q; some (popped_to sys name p))
  unfolding Queue.pop
  popped-Once q [] e held f = (
    popped_to sys name (none, q),
    rw (pop_ring_empty q.ring held) refl,
    (
      put cs name [],
      record {
        queues = QueuesHold-put sys.manager.queues cs name q [] h.queues held;
        once = λ id. omega (
          arith,
          h.once id,
          contents-put cs sys.hands name id [],
          hands-put cs sys.hands name id none,
          ap (count_id id) e,
          ap (count_hand id) f,
        );
      },
    ),
  )
  popped-Once q (m ∷ ms) e held f =
      let (ring, taken, left) = pop_ring_lem q.ring m ms held in
      (
        popped_to sys name (some m, record q { ring = ring }),
        rw taken refl,
        (
          put cs name ms,
          record {
            queues =
                QueuesHold-put sys.manager.queues cs name (record q { ring = ring }) ms h.queues
                  left;
            once = λ id. omega (
              arith,
              h.once id,
              contents-put cs sys.hands name id ms,
              hands-put cs sys.hands name id (some m),
              ap (count_id id) e,
              ap (count_hand id) f,
            );
          },
        ),
      )

  pop_from_lem :
      (o : Option Queue) (hand : Option QueueMsg)
      → get sys.manager.queues name ≡ o
      → in_hand (get sys.hands name) ≡ hand
      → Kept (pop_from o hand name sys)
  pop_from_lem none hand e f = (sys, refl, (cs, h))
  pop_from_lem (some q) (some busy) e f = (sys, refl, (cs, h))
  pop_from_lem (some q) none e f = popped-Once q (or_empty (get cs name)) refl (held_lem q e) f

  -- The message goes from the hand to the end of its queue, or is forgotten.
  reported-Once :
      (q : Queue) (msg : QueueMsg) (r : Report)
      → r.msg.msg_id ≡ msg.msg_id
      → Holds r.queue.ring
          (if r.done then or_empty (get cs name) else or_empty (get cs name) ++ r.msg ∷ [])
      → in_hand (get sys.hands name) ≡ some msg
      → HoldsOnce
          (record { manager = after_report sys.manager name r; hands = put sys.hands name none })
  unfolding forget
  reported-Once q msg r same held f = elim (Bool-cases r.done) [
    | inl e ↦
        let kept : Holds r.queue.ring (or_empty (get cs name)) = rw e at held in
        rw e (
          put cs name (or_empty (get cs name)),
          record {
            queues =
                QueuesHold-put sys.manager.queues cs name r.queue (or_empty (get cs name)) h.queues
                  kept;
            once = λ id. ground (
              arith,
              h.once id,
              contents-put cs sys.hands name id (or_empty (get cs name)),
              hands-put cs sys.hands name id none,
              ap (count_hand id) f,
              ap (λ i. str_eq i id) same,
              has-delete sys.manager.in_flight r.msg.msg_id id,
            );
          },
        )
    | inr e ↦
        let kept : Holds r.queue.ring (or_empty (get cs name) ++ r.msg ∷ []) = rw e at held in
        rw e (
          put cs name (or_empty (get cs name) ++ r.msg ∷ []),
          record {
            queues =
                QueuesHold-put sys.manager.queues cs name r.queue
                  (or_empty (get cs name) ++ r.msg ∷ []) h.queues kept;
            once = λ id. ground (
              arith,
              h.once id,
              contents-append cs sys.hands name id r.msg,
              hands-put cs sys.hands name id none,
              ap (count_hand id) f,
              ap (λ i. str_eq i id) same,
            );
          },
        )
  ]

  process_in_lem :
      (o : Option Queue) (hand : Option QueueMsg) (sent : SubPolicy → Bool) (ack_ok : Bool)
      → get sys.manager.queues name ≡ o
      → in_hand (get sys.hands name) ≡ hand
      → Kept (process_in o hand name sent ack_ok sys)
  process_in_lem none hand sent ack_ok e f = (sys, refl, (cs, h))
  process_in_lem (some q) none sent ack_ok e f = (sys, refl, (cs, h))
  process_in_lem (some q) (some msg) sent ack_ok e f =
      let (r, made, same, held) =
        process_kept q (or_empty (get cs name)) (held_lem q e) sent ack_ok msg in
      (
        record { manager = after_report sys.manager name r; hands = put sys.hands name none },
        rw made refl,
        reported-Once q msg r same held f,
      )

step-HoldsOnce : (sys : System) (e : Event) → HoldsOnce sys → Kept (step sys e)
unfolding step pop_step process_step
step-HoldsOnce sys (scheduled name info) h =
    let (m, made, h') = schedule-HoldsOnce sys name info h in
    (record sys { manager = m }, rw made refl, h')
step-HoldsOnce sys (popped name) (cs, h) =
    pop_from_lem sys cs h name (get sys.manager.queues name) (in_hand (get sys.hands name)) refl
      refl
step-HoldsOnce sys (processed name sent ack_ok) (cs, h) =
    process_in_lem sys cs h name (get sys.manager.queues name) (in_hand (get sys.hands name)) sent
      ack_ok refl refl

-- However the calls of `Schedule` and the steps of the workers interleave in a term, no queue
-- panics, and if at its start each message id in flight is held exactly once, in a queue or by a worker, and no
-- other is held, then this is so at its end.
pub steps-HoldsOnce : (sys : System) (es : List Event) → HoldsOnce sys → Kept (steps sys es)
unfolding steps
steps-HoldsOnce sys [] h = (sys, refl, h)
steps-HoldsOnce sys (e ∷ es) h =
    let (sys', made, h') = step-HoldsOnce sys e h in
    let (sys'', ran, h'') = steps-HoldsOnce sys' es h' in (sys'', rw (made, ran) refl, h'')
