-- ===== src/SimpleMq2.antt =====
-- simple-mq-2/broker.go and simple-mq-2/queue.go: the ring buffer in place of the slice.
-- The ring's fields and methods are those of `Ring`; this program has no wake-up channel.
pub mod Same
use simon_mq.Base.{[], Option, none, some, GoString, codes, ◌>>=◌}
use simon_mq.Dict.{Dict, get, put}
use simon_mq.Ring
use simon_mq.Ring.{Ring, new_ring}
use simon_mq.SimpleMq.{QueueMsg, new_msg}

pub record Queue : Type 0 where
  pub name : GoString
  pub ring : Ring QueueMsg

abbrev pub new_queue : GoString → Queue
new_queue name = record { name = name; ring = new_ring }

unfoldable pub add : Queue → QueueMsg → Option Queue
add q msg = do ring ← Ring.add q.ring msg; some (record q { ring = ring })

unfoldable pub pop : Queue → Option (Option QueueMsg × Queue)
pop q = do (msg, ring) ← Ring.pop q.ring; some (msg, record q { ring = ring })

abbrev pub Broker : Type 0
Broker = Dict Queue

abbrev pub new_broker : Broker
new_broker = []

abbrev or_create : Broker → GoString → Option Queue → Queue × Broker
or_create b name none = (new_queue name, put b name (new_queue name))
or_create b name (some q) = (q, b)

-- The queue of that name, and the broker with the queue in it.
unfoldable pub get_or_create_queue : Broker → GoString → Queue × Broker
get_or_create_queue b name = or_create b name (get b name)

-- The queue is a pointer into the map: the change to it is written back at its name.
unfoldable pub enqueue : Broker → GoString → GoString → Option (QueueMsg × Broker)
enqueue b name payload =
    let msg = new_msg name payload in
    let (queue, b') = get_or_create_queue b name in
    (do queue' ← add queue msg; some (msg, put b' name queue'))

unfoldable pub dequeue : Broker → GoString → Option (Option QueueMsg × Broker)
dequeue b name =
    let (queue, b') = get_or_create_queue b name in
    (do (msg, queue') ← pop queue; some (msg, put b' name queue'))
