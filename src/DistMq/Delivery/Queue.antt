-- ===== src/DistMq/Delivery/Queue.antt =====
-- dist-mq/delivery/queue.go: a message with what is known of its deliveries, and the queue of a
-- worker. The ring is the one of `Ring` but for `Pop`, which clears the slot that it reads.
pub mod Fifo
use simon_mq.Base.{
  ℕ, ◌==◌, Bool, Option, none, some, List, [], ◌∷◌, GoString, length, get_elem?, leb, store,
  if◌then◌else◌, ◌>>=◌,
}
use simon_mq.Dict.{Dict, Set, put}
use simon_mq.Model.{SubPolicy}
use simon_mq.Pending.{pending_into}
use simon_mq.Ring
use simon_mq.Ring.{Ring, new_ring}
use simon_mq.DistMq.Storage.{MessageInfo, copy_subs}

pub record QueueMsg : Type 0 where
  pub msg_id : GoString
  pub payload : GoString
  pub sub_list : Dict SubPolicy
  pub acked_subs : Set
  pub retry_map : Dict ℕ

abbrev pub set_of : Set → List GoString → Set
set_of out [] = out
set_of out (x ∷ xs) = set_of (put out x tt) xs

unfoldable pub new_queue_msg : MessageInfo → QueueMsg
new_queue_msg info = record {
  msg_id = info.msg_id;
  payload = info.payload;
  sub_list = copy_subs info.sub_list;
  acked_subs = set_of [] info.acked_subs;
  retry_map = [];
}

unfoldable pub pending_subs : QueueMsg → Dict SubPolicy
pending_subs m = pending_into [] m.sub_list m.acked_subs

unfoldable pub is_done : QueueMsg → Bool
is_done m = leb (length m.sub_list) (length m.acked_subs)

pub record Queue : Type 0 where
  pub name : GoString
  pub ring : Ring QueueMsg

abbrev pub new_queue : GoString → Queue
new_queue name = record { name = name; ring = new_ring }

abbrev pub len : Queue → ℕ
len q = q.ring.count

unfoldable pub add : Queue → QueueMsg → Option Queue
add q msg = do ring ← Ring.add q.ring msg; some (record q { ring = ring })

-- The head slot is set to nil between the read and the move of the head.
unfoldable pub pop_ring {ℓ} : {A : Type ℓ} → Ring A → Option (Option A × Ring A)
pop_ring q = if q.count == 0 then some (none, q) else (do
  msg ← get_elem? q.buf q.head
  buf ← store q.buf q.head none
  rest ← Ring.advance (record q { buf = buf })
  some (msg, rest))

unfoldable pub pop : Queue → Option (Option QueueMsg × Queue)
pop q = do (msg, ring) ← pop_ring q.ring; some (msg, record q { ring = ring })
