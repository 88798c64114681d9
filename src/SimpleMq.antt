-- ===== src/SimpleMq.antt =====
-- simple-mq/broker.go: queues as Go slices that grow at the end and are cut at the front.
pub mod Fifo
use simon_mq.Base.{◌++◌, Option, none, some, List, [], ◌∷◌, GoString, codes}
use simon_mq.Dict.{Dict, get, put}

pub record QueueMsg : Type 0 where
  pub msg_id : GoString
  pub payload : GoString

pub record Queue : Type 0 where
  pub name : GoString
  pub messages : List QueueMsg

-- The map holds pointers; each queue is reached through its name only, so the map holds the
-- queues themselves and a change to one is a write at its name.
abbrev pub Broker : Type 0
Broker = Dict Queue

abbrev pub new_broker : Broker
new_broker = []

abbrev pub new_msg : GoString → GoString → QueueMsg
new_msg name payload = record { msg_id = name ++ codes "/"; payload = payload }

abbrev append_msg : Option Queue → GoString → QueueMsg → Queue
append_msg none name msg = record { name = name; messages = msg ∷ [] }
append_msg (some val) name msg = record val { messages = val.messages ++ msg ∷ [] }

unfoldable pub enqueue : Broker → GoString → GoString → QueueMsg × Broker
enqueue b name payload =
    let msg = new_msg name payload in (msg, put b name (append_msg (get b name) name msg))

abbrev cut_first : Broker → GoString → Queue → List QueueMsg → Option QueueMsg × Broker
cut_first b name val [] = (none, b)
cut_first b name val (msg ∷ rest) = (some msg, put b name (record val { messages = rest }))

abbrev cut_found : Broker → GoString → Option Queue → Option QueueMsg × Broker
cut_found b name none = (none, b)
cut_found b name (some val) = cut_first b name val val.messages

unfoldable pub dequeue : Broker → GoString → Option QueueMsg × Broker
dequeue b name = cut_found b name (get b name)
