-- ===== src/DistMq/Storage/Preserved.antt =====
-- `Enqueue` and `Ack` keep a valid storage valid.
use simon_mq.Base.{
  ℕ, ◌+◌, ◌^◌, ◌≤◌, ◌<◌, ◌≡◌, refl, ◌∙◌, inl, inr, List, [], arith, length, GoString, Bool-cases,
  Option-cases, ltb, leb, ltb→lt,
}
use simon_mq.Dict.{Dict, get, has}
use simon_mq.Dict.Keys.{IsMap, put-IsMap, delete-IsMap}
use simon_mq.Model.{SubPolicy}
use simon_mq.DistMq.Storage.{
  MessageState, QueueState, Storage, new_message, enqueue, ack_subs, ack, next, add_message, settle,
}
use simon_mq.DistMq.Storage.Copies.{copy_subs_lem}
use simon_mq.Dict.Entries.{each-put, each-delete}
use simon_mq.DistMq.Storage.Valid.{
  AcksIn, MessageIsValid, QueueIsValid, IsValid, QueueIsValid-mono, MessageIsValid-mono,
  set_queue-IsValid, ack_subs-AckedFrom, ack_subs-AcksIn,
}

add_message-QueueIsValid :
    (n b : ℕ) (k : GoString) (q : QueueState) (msg : MessageState)
    → n ≤ b
    → msg.seq < b
    → AcksIn msg
    → msg.acked_subs ≡ []
    → QueueIsValid n k q
    → QueueIsValid b k (add_message q msg)
add_message-QueueIsValid n b k q msg le older acks fresh v =
    elim (Bool-cases (ltb 0 (length msg.sub_list))) [
      | inl e ↦ rw e (record {
        named = v.named;
        subs_map = v.subs_map;
        messages_map = put-IsMap q.messages msg.msg_id msg v.messages_map;
        each =
            each-put (MessageIsValid b) q.messages msg.msg_id
              (λ j w h. MessageIsValid-mono le (v.each j w h)) msg
              (record {
                named = refl;
                acks = acks;
                owing = rw fresh (ltb→lt 0 (length msg.sub_list) e);
                older = older;
              });
      })
      | inr e ↦ rw e (QueueIsValid-mono le v)
    ]

new_message-AcksIn :
    (s : Storage) (id payload : GoString) (subs : Dict SubPolicy)
    → IsMap subs
    → AcksIn (new_message s id payload subs)
new_message-AcksIn s id payload subs m = record {
  sub_list_map = rw (copy_subs_lem subs m) m;
  acked_map = tt;
  within = λ k h. unfold has get in absurd (cc);
}

-- The sequence numbers do not run out in the hypothesis: `nextSeq` is a uint64.
pub enqueue-IsValid :
    (s : Storage) (k id payload : GoString) (subs : Dict SubPolicy)
    → IsMap subs
    → s.next_seq + 1 < 2 ^ 64
    → IsValid s
    → IsValid (enqueue s k id payload subs).1
unfolding enqueue
enqueue-IsValid s k id payload subs m room v = elim (Option-cases (get s.queues k)) [
  | inl e ↦ rw e v
  | inr (q, e) ↦ elim (Option-cases (get q.messages id)) [
    | inl absent ↦
        rw (e, absent)
          (set_queue-IsValid s k _ (next s.next_seq) v (omega arith) (
            add_message-QueueIsValid s.next_seq (next s.next_seq) k q
              (new_message s id payload subs) (omega arith) (omega arith)
              (new_message-AcksIn s id payload subs m) refl (v.each k q e)))
    | inr (old, present) ↦ rw (e, present) v
  ]
]

settle-QueueIsValid :
    (b : ℕ) (k id : GoString) (q : QueueState) (msg : MessageState)
    → msg.msg_id ≡ id
    → msg.seq < b
    → AcksIn msg
    → QueueIsValid b k q
    → QueueIsValid b k (settle q id msg)
settle-QueueIsValid b k id q msg named older acks v =
    elim (Bool-cases (leb (length msg.sub_list) (length msg.acked_subs))) [
      | inl e ↦ rw e (record {
        named = v.named;
        subs_map = v.subs_map;
        messages_map = delete-IsMap q.messages id v.messages_map;
        each = each-delete (MessageIsValid b) q.messages id v.each;
      })
      | inr e ↦ rw e (record {
        named = v.named;
        subs_map = v.subs_map;
        messages_map = put-IsMap q.messages id msg v.messages_map;
        each =
            each-put (MessageIsValid b) q.messages id v.each msg
              (record { named = named; acks = acks; owing = ground arith; older = older });
      })
    ]

acked-QueueIsValid :
    (b : ℕ) (k id : GoString) (q : QueueState) (msg : MessageState) (names : List GoString)
    → MessageIsValid b id msg
    → QueueIsValid b k q
    → QueueIsValid b k (settle q id (ack_subs msg names))
acked-QueueIsValid b k id q msg names w v =
    let same = ack_subs-AckedFrom msg names in
    settle-QueueIsValid b k id q (ack_subs msg names) (same.same_id ∙ w.named)
      (omega (arith, same.same_seq, w.older)) (ack_subs-AcksIn msg names w.acks) v

pub ack-IsValid :
    (s : Storage) (k id : GoString) (names : List GoString)
    → IsValid s
    → IsValid (ack s k id names).1
unfolding ack
ack-IsValid s k id names v = elim (Option-cases (get s.queues k)) [
  | inl e ↦ rw e v
  | inr (q, e) ↦ elim (Option-cases (get q.messages id)) [
    | inl absent ↦ rw (e, absent) v
    | inr (msg, present) ↦
        rw (e, present)
          (set_queue-IsValid s k _ s.next_seq v (omega arith) (
            acked-QueueIsValid s.next_seq k id q msg names ((v.each k q e).each id msg present)
              (v.each k q e)))
  ]
]
