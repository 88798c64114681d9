-- ===== src/DistMq/Storage/Valid.antt =====
-- What every reachable state of the storage has: names that agree with their keys, maps without
-- double keys, acks inside the snapshot of subscribers, and no message that nobody is owed.
use simon_mq.Base.{
  ℕ, ◌≤◌, ◌<◌, ◌≡◌, refl, inl, inr, some, List, [], ◌∷◌, arith, length, GoString, str_eq_iff,
  Bool-cases, Option-cases,
}
use simon_mq.Dict.{get, has, put}
use simon_mq.Dict.Laws.{has-put, get-empty}
use simon_mq.Dict.Keys.{IsMap, KeysIn, put-IsMap, delete-IsMap}
use simon_mq.Dict.Entries.{each-put, each-delete}
use simon_mq.Model.{SubPolicy}
use simon_mq.DistMq.Storage.{
  MessageState, QueueState, Storage, new_storage, create_queue, delete_queue, put_sub_policy,
  delete_sub_policy, ack_sub, ack_subs,
}

-- An acked subscriber stands in the snapshot.
pub record AcksIn (msg : MessageState) : Type 0 where
  pub sub_list_map : IsMap msg.sub_list
  pub acked_map : IsMap msg.acked_subs
  pub within : KeysIn msg.acked_subs msg.sub_list

pub record MessageIsValid (bound : ℕ) (id : GoString) (msg : MessageState) : Type 0 where
  pub named : msg.msg_id ≡ id
  pub acks : AcksIn msg
  pub owing : length msg.acked_subs < length msg.sub_list
  pub older : msg.seq < bound

pub record QueueIsValid (bound : ℕ) (id : GoString) (q : QueueState) : Type 0 where
  pub named : q.name ≡ id
  pub subs_map : IsMap q.subs
  pub messages_map : IsMap q.messages
  pub each :
      (m : GoString) (msg : MessageState) → get q.messages m ≡ some msg → MessageIsValid bound m msg

pub record IsValid (s : Storage) : Type 0 where
  pub queues_map : IsMap s.queues
  pub each : (k : GoString) (q : QueueState) → get s.queues k ≡ some q → QueueIsValid s.next_seq k q

-- A later bound serves as well.
pub MessageIsValid-mono :
    {a b : ℕ} {id : GoString} {msg : MessageState}
    → a ≤ b
    → MessageIsValid a id msg
    → MessageIsValid b id msg
MessageIsValid-mono le v = record {
  named = v.named;
  acks = v.acks;
  owing = v.owing;
  older = omega (arith, v.older);
}

pub QueueIsValid-mono :
    {a b : ℕ} {id : GoString} {q : QueueState} → a ≤ b → QueueIsValid a id q → QueueIsValid b id q
QueueIsValid-mono le v = record {
  named = v.named;
  subs_map = v.subs_map;
  messages_map = v.messages_map;
  each = λ m msg e. MessageIsValid-mono le (v.each m msg e);
}

-- The queue `q` is written at its name, and the sequence number goes on to `n`.
pub set_queue-IsValid :
    (s : Storage) (k : GoString) (q : QueueState) (n : ℕ)
    → IsValid s
    → s.next_seq ≤ n
    → QueueIsValid n k q
    → IsValid (record { queues = put s.queues k q; next_seq = n })
set_queue-IsValid s k q n v le w = record {
  queues_map = put-IsMap s.queues k q v.queues_map;
  each = each-put (QueueIsValid n) s.queues k (λ j r e. QueueIsValid-mono le (v.each j r e)) q w;
}

pub new_storage-IsValid : IsValid new_storage
new_storage-IsValid = record {
  queues_map = tt;
  each = λ k q e. absurd (cc (get-empty {V = QueueState} k));
}

pub create_queue-IsValid :
    (s : Storage) (name : GoString) → IsValid s → IsValid (create_queue s name).1
unfolding create_queue
create_queue-IsValid s name v = elim (Bool-cases (has s.queues name)) [
  | inl e ↦ rw e v
  | inr e ↦ rw e (
      set_queue-IsValid s name _ s.next_seq v (omega arith) (record {
        named = refl;
        subs_map = tt;
        messages_map = tt;
        each = λ m msg h. absurd (cc (get-empty {V = MessageState} m));
      }))
]

pub delete_queue-IsValid :
    (s : Storage) (name : GoString) → IsValid s → IsValid (delete_queue s name).1
unfolding delete_queue
delete_queue-IsValid s name v = elim (Bool-cases (has s.queues name)) [
  | inl e ↦ rw e (record {
    queues_map = delete-IsMap s.queues name v.queues_map;
    each = each-delete (QueueIsValid s.next_seq) s.queues name v.each;
  })
  | inr e ↦ rw e v
]

pub put_sub_policy-IsValid :
    (s : Storage) (name : GoString) (policy : SubPolicy)
    → IsValid s
    → IsValid (put_sub_policy s name policy).1
unfolding put_sub_policy
put_sub_policy-IsValid s name policy v = elim (Option-cases (get s.queues name)) [
  | inl e ↦ rw e v
  | inr (q, e) ↦ rw e (
      set_queue-IsValid s name _ s.next_seq v (omega arith) (record {
        named = (v.each name q e).named;
        subs_map = put-IsMap q.subs policy.sub_name policy (v.each name q e).subs_map;
        messages_map = (v.each name q e).messages_map;
        each = (v.each name q e).each;
      }))
]

pub delete_sub_policy-IsValid :
    (s : Storage) (name sub : GoString) → IsValid s → IsValid (delete_sub_policy s name sub).1
unfolding delete_sub_policy
delete_sub_policy-IsValid s name sub v = elim (Option-cases (get s.queues name)) [
  | inl e ↦ rw e v
  | inr (q, e) ↦ rw e (
      set_queue-IsValid s name _ s.next_seq v (omega arith) (record {
        named = (v.each name q e).named;
        subs_map = delete-IsMap q.subs sub (v.each name q e).subs_map;
        messages_map = (v.each name q e).messages_map;
        each = (v.each name q e).each;
      }))
]

-- The acks of a message: its snapshot and the rest of it stay, and no acked name stands outside.
pub record AckedFrom (msg msg' : MessageState) : Type 0 where
  pub same_sub_list : msg'.sub_list ≡ msg.sub_list
  pub same_id : msg'.msg_id ≡ msg.msg_id
  pub same_seq : msg'.seq ≡ msg.seq
  pub same_payload : msg'.payload ≡ msg.payload

pub ack_sub-AckedFrom : (msg : MessageState) (x : GoString) → AckedFrom msg (ack_sub msg x)
unfolding ack_sub
ack_sub-AckedFrom msg x = ground arith

pub ack_subs-AckedFrom :
    (msg : MessageState) (names : List GoString) → AckedFrom msg (ack_subs msg names)
unfolding ack_subs
ack_subs-AckedFrom msg [] = record {
  same_sub_list = refl;
  same_id = refl;
  same_seq = refl;
  same_payload = refl;
}
ack_subs-AckedFrom msg (x ∷ xs) =
    ground (arith, ack_sub-AckedFrom msg x, ack_subs-AckedFrom (ack_sub msg x) xs)

ack_sub-AcksIn : (msg : MessageState) (x : GoString) → AcksIn msg → AcksIn (ack_sub msg x)
unfolding ack_sub
ack_sub-AcksIn msg x a = elim (Bool-cases (has msg.sub_list x)) [
  | inl e ↦ rw e (record {
    sub_list_map = a.sub_list_map;
    acked_map = put-IsMap msg.acked_subs x tt a.acked_map;
    within = λ k h. ground (arith, has-put msg.acked_subs x k tt, str_eq_iff x k, a.within k);
  })
  | inr e ↦ rw e a
]

pub ack_subs-AcksIn :
    (msg : MessageState) (names : List GoString) → AcksIn msg → AcksIn (ack_subs msg names)
unfolding ack_subs
ack_subs-AcksIn msg [] a = a
ack_subs-AcksIn msg (x ∷ xs) a = ack_subs-AcksIn (ack_sub msg x) xs (ack_sub-AcksIn msg x a)
