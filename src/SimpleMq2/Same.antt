-- ===== src/SimpleMq2/Same.antt =====
-- simple-mq-2 answers as simple-mq does.
use simon_mq.Base.{
  ◌≡◌, refl, sym, subst, inl, inr, Option, none, some, List, [], ◌∷◌, ◌++◌, arith, GoString, str_eq,
  if◌then◌else◌, Option-cases, Bool-cases, ◌>>=◌,
}
use simon_mq.Dict.{get, put}
use simon_mq.Dict.Laws.{get-put}
use simon_mq.Ring
use simon_mq.Ring.{Ring, new_ring}
use simon_mq.Ring.Valid.{Holds, new_ring-Holds}
use simon_mq.Ring.Add.{add_lem}
use simon_mq.Ring.Pop.{pop_lem, pop_empty}
use simon_mq.SimpleMq
use simon_mq.SimpleMq.{QueueMsg, new_msg}
use simon_mq.SimpleMq.Fifo.{contents, contents-enqueue, dequeue-contents, first, rest}
use simon_mq.SimpleMq2.{
  Queue, Broker, new_broker, new_queue, add, pop, get_or_create_queue, enqueue, dequeue,
}

-- A queue of simple-mq-2, or its absence, holds these messages.
abbrev QueueHolds : Option Queue → List QueueMsg → Type 0
QueueHolds none ms = ms ≡ []
QueueHolds (some q) ms = Holds q.ring ms

abbrev pub Related : SimpleMq.Broker → Broker → Type 0
Related b b2 = (name : GoString) → QueueHolds (get b2 name) (contents b name)

-- What a client can do.
pub data Call : Type 0 where
  send : GoString → GoString → Call
  receive : GoString → Call

pub data Reply : Type 0 where
  sent : QueueMsg → Reply
  received : Option QueueMsg → Reply

pub serve : SimpleMq.Broker → List Call → List Reply
serve b [] = []
serve b (send name payload ∷ calls) =
    let (msg, b') = SimpleMq.enqueue b name payload in sent msg ∷ serve b' calls
serve b (receive name ∷ calls) =
    let (msg, b') = SimpleMq.dequeue b name in received msg ∷ serve b' calls

pub serve2 : Broker → List Call → Option (List Reply)
serve2 b [] = some []
serve2 b (send name payload ∷ calls) = do
  (msg, b') ← enqueue b name payload
  replies ← serve2 b' calls
  some (sent msg ∷ replies)
serve2 b (receive name ∷ calls) = do
  (msg, b') ← dequeue b name
  replies ← serve2 b' calls
  some (received msg ∷ replies)

-- A lookup in the broker that has the queue, once it is written back.
get_or_create_lem :
    (b2 : Broker) (name : GoString) (ms : List QueueMsg)
    → QueueHolds (get b2 name) ms
    → Holds (get_or_create_queue b2 name).0.ring ms
      × ((q : Queue) (other : GoString)
          → get (put (get_or_create_queue b2 name).1 name q) other
            ≡ (if str_eq name other then some q else get b2 other))
unfolding get_or_create_queue
get_or_create_lem b2 name ms h = elim (Option-cases (get b2 name)) [
  | inl e ↦
      rw (e, get_or_create_queue)
        (
          subst (Holds new_ring) (sym (rw e at h)) new_ring-Holds,
          λ q other. ground (
            arith,
            get-put (put b2 name (new_queue name)) name other q,
            get-put b2 name other (new_queue name),
          ),
        )
  | inr (q, e) ↦ rw (e, get_or_create_queue) (rw e at h, λ q' other. get-put b2 name other q')
]

-- One queue of either broker changes: the brokers stay related if that queue does.
Related-put :
    (b b' : SimpleMq.Broker) (b2 b2' : Broker) (name : GoString) (q : Queue) (ms : List QueueMsg)
    → Related b b2
    → Holds q.ring ms
    → ((other : GoString) → get b2' other ≡ (if str_eq name other then some q else get b2 other))
    → ((other : GoString)
        → contents b' other ≡ (if str_eq name other then ms else contents b other))
    → Related b' b2'
Related-put b b' b2 b2' name q ms r h at2 at1 other =
    rw (at2 other, at1 other)
      (elim (Bool-cases (str_eq name other)) [ inl e ↦ rw e h | inr e ↦ rw e (r other) ])

enqueue-Related :
    (b : SimpleMq.Broker) (b2 : Broker) (name payload : GoString)
    → Related b b2
    → (b2' : Broker) × (enqueue b2 name payload ≡ some ((SimpleMq.enqueue b name payload).0, b2'))
      × Related (SimpleMq.enqueue b name payload).1 b2'
unfolding enqueue add SimpleMq.enqueue
enqueue-Related b b2 name payload r =
    let (h, at) = get_or_create_lem b2 name (contents b name) (r name) in
    let (q0, b1) = get_or_create_queue b2 name in
    let (ring, added, h', _) = add_lem q0.ring (contents b name) (new_msg name payload) h in
    let q' : Queue = record q0 { ring = ring } in
    (
      put b1 name q',
      rw added,
      Related-put b (SimpleMq.enqueue b name payload).1 b2 (put b1 name q') name q'
          (contents b name ++ new_msg name payload ∷ []) r h' (at q')
          (contents-enqueue b name payload),
    )

-- A `Pop` of a ring in terms of the messages that it holds, on either branch.
pop_either :
    (q : Ring QueueMsg) (ms : List QueueMsg)
    → Holds q ms
    → (q' : Ring QueueMsg) × (Ring.pop q ≡ some (first ms, q')) × Holds q' (rest ms)
pop_either q [] h = (q, pop_empty q h, h)
pop_either q (m ∷ ms) h = pop_lem q m ms h

dequeue-Related :
    (b : SimpleMq.Broker) (b2 : Broker) (name : GoString)
    → Related b b2
    → (b2' : Broker) × (dequeue b2 name ≡ some ((SimpleMq.dequeue b name).0, b2'))
      × Related (SimpleMq.dequeue b name).1 b2'
unfolding dequeue pop
dequeue-Related b b2 name r =
    let (h, at) = get_or_create_lem b2 name (contents b name) (r name) in
    let (q0, b1) = get_or_create_queue b2 name in
    let (ring, popped, h') = pop_either q0.ring (contents b name) h in
    let q' : Queue = record q0 { ring = ring } in
    (
      put b1 name q',
      rw (popped, (dequeue-contents b name name).0),
      Related-put b (SimpleMq.dequeue b name).1 b2 (put b1 name q') name q' (rest (contents b name))
          r h' (at q') (λ other. (dequeue-contents b name other).1),
    )

serve-serve2 :
    (b : SimpleMq.Broker) (b2 : Broker) (calls : List Call)
    → Related b b2
    → serve2 b2 calls ≡ some (serve b calls)
unfolding serve serve2
serve-serve2 b b2 [] r = refl
serve-serve2 b b2 (send name payload ∷ calls) r =
    let (b2', done, r') = enqueue-Related b b2 name payload r in
    rw (done, serve-serve2 (SimpleMq.enqueue b name payload).1 b2' calls r')
serve-serve2 b b2 (receive name ∷ calls) r =
    let (b2', done, r') = dequeue-Related b b2 name r in
    rw (done, serve-serve2 (SimpleMq.dequeue b name).1 b2' calls r')

-- Whatever calls of `enqueue` and `dequeue` a client makes, on whatever queues, the broker of
-- simple-mq-2 with its ring buffers never panics and gives the replies of the broker of simple-mq
-- with its slices.
pub simple_mq_2_same_replies :
    (calls : List Call) → serve2 new_broker calls ≡ some (serve SimpleMq.new_broker calls)
simple_mq_2_same_replies calls =
    serve-serve2 SimpleMq.new_broker new_broker calls (λ name. unfold get in refl)
