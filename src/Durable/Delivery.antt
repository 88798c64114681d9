-- ===== src/Durable/Delivery.antt =====
-- durable-mq/delivery/delivery.go: the messages of the log that is replayed, used at startup only.
use simon_mq.Base.{ℕ, ◌==◌, Option, none, some, [], GoString, if◌then◌else◌}
use simon_mq.Dict.{Dict, Set, get, has, put, delete}
use simon_mq.Model.{SubPolicy}
use simon_mq.Durable.Model.{Codec, Enqueue, Ack}
use simon_mq.Durable.Record
use simon_mq.Durable.Record.{Record}

pub record DeliveryMessageInfo : Type 0 where
  pub content : GoString
  pub sub_list : Dict SubPolicy
  pub acked_subs : Set

-- The messages of each queue.
abbrev pub Delivery : Type 0
Delivery = Dict (Dict DeliveryMessageInfo)

abbrev pub new_delivery : Delivery
new_delivery = []

pub data DeliveryError : Type 0 where
  invalid_op : ℕ → DeliveryError
  bad_payload : DeliveryError
  no_queue no_message : GoString → DeliveryError

abbrev pub Outcome : Type 0
Outcome = Option DeliveryError × Delivery

abbrev pub messages_of : Option (Dict DeliveryMessageInfo) → Dict DeliveryMessageInfo
messages_of none = []
messages_of (some m) = m

abbrev new_info : Enqueue → DeliveryMessageInfo
new_info e = record { content = e.msg_content; sub_list = e.sub_list; acked_subs = [] }

abbrev add_enqueue : Option Enqueue → Delivery → GoString → Outcome
add_enqueue none d queue_name = (some bad_payload, d)
add_enqueue (some e) d queue_name =
    (none, put d queue_name (put (messages_of (get d queue_name)) e.msg_id (new_info e)))

-- A name outside the list of subscribers is not documented.
abbrev ack_info : DeliveryMessageInfo → GoString → DeliveryMessageInfo
ack_info m sub_name =
    if has m.sub_list sub_name then record m { acked_subs = put m.acked_subs sub_name tt } else m

abbrev ack_message :
    Option DeliveryMessageInfo → Delivery → Dict DeliveryMessageInfo → GoString → Ack → Outcome
ack_message none d messages queue_name a = (some (no_message a.msg_id), d)
ack_message (some m) d messages queue_name a =
    (none, put d queue_name (put messages a.msg_id (ack_info m a.sub_name)))

abbrev ack_queue : Option (Dict DeliveryMessageInfo) → Delivery → GoString → Ack → Outcome
ack_queue none d queue_name a = (some (no_queue queue_name), d)
ack_queue (some messages) d queue_name a =
    ack_message (get messages a.msg_id) d messages queue_name a

abbrev add_ack : Option Ack → Delivery → GoString → Outcome
add_ack none d queue_name = (some bad_payload, d)
add_ack (some a) d queue_name = ack_queue (get d queue_name) d queue_name a

module _ (codec : Codec) where
  unfoldable pub process_enqueue : Delivery → Record → Outcome
  process_enqueue d r =
      if r.op_type == Record.op_enqueue
      then add_enqueue (codec.decode_enqueue r.payload) d r.queue_name
      else (some (invalid_op r.op_type), d)

  unfoldable pub process_ack : Delivery → Record → Outcome
  process_ack d r =
      if r.op_type == Record.op_ack
      then add_ack (codec.decode_ack r.payload) d r.queue_name
      else (some (invalid_op r.op_type), d)

unfoldable pub delete_queue_messages : Delivery → GoString → Delivery
delete_queue_messages d queue_name = delete d queue_name
