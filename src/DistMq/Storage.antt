-- ===== src/DistMq/Storage.antt =====
-- dist-mq/storage/in-memory-storage.go: the replicated state, and dist-mq/model/queue-info.go.
-- The mutex is not modelled: each method runs with it held, so the calls happen one at a time.
-- The maps hold pointers to queues and messages that nothing else holds, so they hold the
-- structures here, and a change through a pointer is a write at its key.
pub mod Copies
pub mod Valid
pub mod Preserved
pub mod Owed
pub mod Delivery
pub mod Stored
pub mod Order
pub mod Members
use simon_mq.Base.{
  ℕ, ◌+◌, ◌%◌, ◌^◌, Bool, true, false, Option, none, some, List, [], ◌∷◌, map, GoString, str_lt,
  sort, length, leb, ltb, if◌then◌else◌,
}
use simon_mq.Dict
use simon_mq.Dict.{Dict, Set, get, has, put, delete}
use simon_mq.Model.{SubPolicy}

pub record MessageState : Type 0 where
  pub seq : ℕ
  pub msg_id : GoString
  pub payload : GoString
  pub sub_list : Dict SubPolicy
  pub acked_subs : Set

pub record QueueState : Type 0 where
  pub name : GoString
  pub subs : Dict SubPolicy
  pub messages : Dict MessageState

-- `next_seq` is a uint64.
pub record Storage : Type 0 where
  pub queues : Dict QueueState
  pub next_seq : ℕ

pub record MessageInfo : Type 0 where
  pub msg_id : GoString
  pub payload : GoString
  pub sub_list : Dict SubPolicy
  pub acked_subs : List GoString

pub record QueueInfo : Type 0 where
  pub name : GoString
  pub sub_policies : Dict SubPolicy
  pub messages : List MessageInfo

pub data StoreError : Type 0 where
  queue_not_found queue_exists : StoreError

pub data Result (A : Type 0) : Type 0 where
  ok : A → Result A
  err : StoreError → Result A

abbrev pub new_storage : Storage
new_storage = record { queues = []; next_seq = 0 }

-- `nextSeq++` on a uint64
abbrev pub next : ℕ → ℕ
next n = (n + 1) % 2 ^ 64

abbrev copy_into {ℓ} : {V : Type ℓ} → Dict V → Dict V → Dict V
copy_into out [] = out
copy_into out ((k, v) ∷ m) = copy_into (put out k v) m

unfoldable pub copy_subs {ℓ} : {V : Type ℓ} → Dict V → Dict V
copy_subs m = copy_into [] m

abbrev pub keys {ℓ} : {V : Type ℓ} → Dict V → List GoString
keys [] = []
keys ((k, v) ∷ m) = k ∷ keys m

unfoldable pub sorted_keys : Set → List GoString
sorted_keys m = sort str_lt (keys m)

unfoldable pub to_message_info : MessageState → MessageInfo
to_message_info msg = record {
  msg_id = msg.msg_id;
  payload = msg.payload;
  sub_list = copy_subs msg.sub_list;
  acked_subs = sorted_keys msg.acked_subs;
}

abbrev pub by_seq : MessageState → MessageState → Bool
by_seq a b = ltb a.seq b.seq

abbrev pub values {ℓ} : {V : Type ℓ} → Dict V → List V
values [] = []
values ((k, v) ∷ m) = v ∷ values m

unfoldable pub messages_in_order : QueueState → List MessageInfo
messages_in_order q = map to_message_info (sort by_seq (values q.messages))

abbrev pub new_queue : GoString → QueueState
new_queue name = record { name = name; subs = []; messages = [] }

abbrev set_queue : Storage → GoString → QueueState → Storage
set_queue s name q = record s { queues = put s.queues name q }

unfoldable pub create_queue : Storage → GoString → Result (Unit {0}) × Storage
create_queue s name =
    if has s.queues name then (err queue_exists, s) else (ok tt, set_queue s name (new_queue name))

unfoldable pub delete_queue : Storage → GoString → Result (Unit {0}) × Storage
delete_queue s name =
    if has s.queues name
    then (ok tt, record s { queues = delete s.queues name })
    else (err queue_not_found, s)

-- The queue that a method looks up, or its error.
abbrev with_queue :
    {A : Type 0}
    → Option QueueState
    → Storage
    → (QueueState → Result A × Storage)
    → Result A × Storage
with_queue none s f = (err queue_not_found, s)
with_queue (some q) s f = f q

unfoldable pub put_sub_policy : Storage → GoString → SubPolicy → Result (Unit {0}) × Storage
put_sub_policy s queue_name policy =
    with_queue (get s.queues queue_name) s
      λ q. (ok tt, set_queue s queue_name (record q { subs = put q.subs policy.sub_name policy }))

unfoldable pub delete_sub_policy : Storage → GoString → GoString → Result (Unit {0}) × Storage
delete_sub_policy s queue_name sub_name =
    with_queue (get s.queues queue_name) s
      λ q. (ok tt, set_queue s queue_name (record q { subs = delete q.subs sub_name }))

abbrev pub new_message : Storage → GoString → GoString → Dict SubPolicy → MessageState
new_message s msg_id payload sub_list = record {
  seq = s.next_seq;
  msg_id = msg_id;
  payload = payload;
  sub_list = copy_subs sub_list;
  acked_subs = [];
}

-- A message that nobody subscribes to is not stored; its sequence number is used up.
abbrev pub add_message : QueueState → MessageState → QueueState
add_message q msg =
    if ltb 0 (length msg.sub_list) then record q { messages = put q.messages msg.msg_id msg } else q

abbrev enqueue_new :
    Option MessageState
    → Storage
    → GoString
    → QueueState
    → MessageState
    → Result MessageInfo × Storage
enqueue_new (some existing) s queue_name q msg = (ok (to_message_info existing), s)
enqueue_new none s queue_name q msg = (
  ok (to_message_info msg),
  record { queues = put s.queues queue_name (add_message q msg); next_seq = next s.next_seq },
)

unfoldable pub enqueue :
    Storage → GoString → GoString → GoString → Dict SubPolicy → Result MessageInfo × Storage
enqueue s queue_name msg_id payload sub_list =
    with_queue (get s.queues queue_name) s λ q.
      enqueue_new (get q.messages msg_id) s queue_name q (new_message s msg_id payload sub_list)

-- A name outside the snapshot was never owed the message.
unfoldable pub ack_sub : MessageState → GoString → MessageState
ack_sub msg sub_name =
    if has msg.sub_list sub_name
    then record msg { acked_subs = put msg.acked_subs sub_name tt }
    else msg

unfoldable pub ack_subs : MessageState → List GoString → MessageState
ack_subs msg [] = msg
ack_subs msg (x ∷ xs) = ack_subs (ack_sub msg x) xs

-- A message that every subscriber has acked is dropped.
abbrev settle : QueueState → GoString → MessageState → QueueState
settle q msg_id msg =
    if leb (length msg.sub_list) (length msg.acked_subs)
    then record q { messages = delete q.messages msg_id }
    else record q { messages = put q.messages msg_id msg }

abbrev ack_message :
    Option MessageState → Storage → GoString → GoString → QueueState → List GoString → Storage
ack_message none s queue_name msg_id q names = s
ack_message (some msg) s queue_name msg_id q names =
    set_queue s queue_name (settle q msg_id (ack_subs msg names))

abbrev ack_queue : Option QueueState → Storage → GoString → GoString → List GoString → Storage
ack_queue none s queue_name msg_id names = s
ack_queue (some q) s queue_name msg_id names =
    ack_message (get q.messages msg_id) s queue_name msg_id q names

-- An ack of an absent queue or message is no error.
unfoldable pub ack : Storage → GoString → GoString → List GoString → Result (Unit {0}) × Storage
ack s queue_name msg_id names =
    (ok tt, ack_queue (get s.queues queue_name) s queue_name msg_id names)

unfoldable pub queue_names : Storage → List GoString
queue_names s = sort str_lt (keys s.queues)

abbrev to_queue_info : QueueState → QueueInfo
to_queue_info q = record {
  name = q.name;
  sub_policies = copy_subs q.subs;
  messages = messages_in_order q;
}

abbrev by_name : QueueInfo → QueueInfo → Bool
by_name a b = str_lt a.name b.name

unfoldable pub all_queue_info : Storage → List QueueInfo
all_queue_info s = sort by_name (map to_queue_info (values s.queues))

unfoldable pub fetch_sub_list : Storage → GoString → Option (Dict SubPolicy)
fetch_sub_list s queue_name = elim (get s.queues queue_name) [
  | none ↦ none
  | some q ↦ some (copy_subs q.subs)
]

unfoldable pub pending_messages : Storage → GoString → Result (List MessageInfo)
pending_messages s queue_name = elim (get s.queues queue_name) [
  | none ↦ err queue_not_found
  | some q ↦ ok (messages_in_order q)
]
