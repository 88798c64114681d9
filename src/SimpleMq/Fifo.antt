-- ===== src/SimpleMq/Fifo.antt =====
-- The broker of simple-mq against one list of messages for each queue name.
use simon_mq.Base.{
  ◌≡◌, refl, Option, none, some, List, [], ◌∷◌, ◌++◌, arith, GoString, str_eq, str_eq_iff,
  if◌then◌else◌, Option-cases, inl, inr,
}
use simon_mq.Dict.{get}
use simon_mq.Dict.Laws.{get-put}
use simon_mq.SimpleMq.{QueueMsg, Queue, Broker, new_msg, enqueue, dequeue, cut_first}

abbrev messages_of : Option Queue → List QueueMsg
messages_of none = []
messages_of (some q) = q.messages

-- The messages of a queue, oldest first; an absent queue has none.
abbrev pub contents : Broker → GoString → List QueueMsg
contents b name = messages_of (get b name)

abbrev pub first : List QueueMsg → Option QueueMsg
first [] = none
first (m ∷ ms) = some m

abbrev pub rest : List QueueMsg → List QueueMsg
rest [] = []
rest (m ∷ ms) = ms

-- `enqueue` puts its message behind the others of its queue, which it makes if need be, and
-- leaves every other queue as it was.
pub contents-enqueue :
    (b : Broker) (name payload other : GoString)
    → contents (enqueue b name payload).1 other ≡ (
        if str_eq name other
        then contents b name ++ new_msg name payload ∷ []
        else contents b other)
unfolding enqueue
contents-enqueue b name payload other = elim (Option-cases (get b name)) [
  | inl e ↦ rw (e, get-put) (ground arith)
  | inr (q, e) ↦ rw (e, get-put) (ground arith)
]

cut_first-contents :
    (b : Broker) (name other : GoString) (q : Queue) (ms : List QueueMsg)
    → get b name ≡ some q
    → q.messages ≡ ms
    → ((cut_first b name q ms).0 ≡ first q.messages)
      × (contents (cut_first b name q ms).1 other
          ≡ (if str_eq name other then rest q.messages else contents b other))
cut_first-contents b name other q [] e m = rw m (refl, ground (arith, e, m, str_eq_iff name other))
cut_first-contents b name other q (x ∷ xs) e m = rw (m, get-put) (refl, ground arith)

-- `dequeue` returns the oldest message of its queue, or nil where there is none, removes that
-- message alone, and leaves every other queue as it was.
pub dequeue-contents :
    (b : Broker) (name other : GoString)
    → ((dequeue b name).0 ≡ first (contents b name))
      × (contents (dequeue b name).1 other
          ≡ (if str_eq name other then rest (contents b name) else contents b other))
unfolding dequeue
dequeue-contents b name other = elim (Option-cases (get b name)) [
  | inl e ↦ rw (e, dequeue) (refl, ground (arith, e, str_eq_iff name other))
  | inr (q, e) ↦ rw (e, dequeue) (cut_first-contents b name other q q.messages e refl)
]
