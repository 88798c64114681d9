-- ===== src/DistMq/Storage/Delivery.antt =====
-- `Ack` and `Enqueue` in terms of what is owed, and what is kept in the storage.
use simon_mq.Base.{
  ◌<◌, ◌≡◌, refl, inl, inr, Bool, false, ◌&&◌, not, Option, none, some, List, [], ◌∷◌, arith,
  length, GoString, str_eq, str_eq_iff, if◌then◌else◌, Bool-cases, Option-cases, ltb,
}
use simon_mq.Dict.{Dict, get, has, put}
use simon_mq.Dict.Laws.{get-put, get-put_self, get-empty}
use simon_mq.Dict.Keys.{IsMap}
use simon_mq.Model.{SubPolicy}
use simon_mq.DistMq.Storage.{
  MessageState, QueueState, Storage, ok, new_message, enqueue, ack_subs, ack, next, add_message,
  settle, to_message_info,
}
use simon_mq.DistMq.Storage.Copies.{copy_subs_lem}
use simon_mq.DistMq.Storage.Valid.{IsValid, ack_subs-AcksIn}
use simon_mq.DistMq.Storage.Owed.{
  owed_at, owed, mem, owed_of-ack_subs, owed-settle, owed-put, owed_found, owed_missing,
}

-- `Ack` settles exactly the named subscribers of the one message, on a valid storage: what any
-- other subscriber, message or queue is owed stays, also where the message is dropped because
-- nobody is owed it any more, and an ack of what is absent changes nothing.
pub owed-ack :
    (s : Storage) (k id : GoString) (names : List GoString) (j m sub : GoString)
    → IsValid s
    → owed (ack s k id names).1 j m sub
      ≡ (if str_eq k j && (str_eq id m && mem sub names) then none else owed s j m sub)
unfolding ack
owed-ack s k id names j m sub v = elim (Option-cases (get s.queues k)) [
  | inl e ↦ rw e (ground (arith, owed_missing s k j m sub e))
  | inr (q, e) ↦ elim (Option-cases (get q.messages id)) [
    | inl absent ↦
        rw (e, absent)
          (unfold owed_at in ground (arith, owed_found s k j m sub q e, str_eq_iff id m))
    | inr (msg, present) ↦
        rw (e, present)
          (unfold owed_at in
            ground (
              arith,
              owed-put s k j (settle q id (ack_subs msg names)) s.next_seq m sub,
              owed-settle q id (ack_subs msg names) m sub
                  (ack_subs-AcksIn msg names ((v.each k q e).each id msg present).acks),
              owed_of-ack_subs msg names sub,
              owed_found s k j m sub q e,
              str_eq_iff id m,
            ))
  ]
]

abbrev message_in : Option QueueState → GoString → Option MessageState
message_in none id = none
message_in (some q) id = get q.messages id

-- The message, if the storage holds it.
unfoldable pub message_at : Storage → GoString → GoString → Option MessageState
message_at s k id = message_in (get s.queues k) id

abbrev fresh_in : Option QueueState → GoString → Bool
fresh_in none id = false
fresh_in (some q) id = not (has q.messages id)

-- `Enqueue` would store the message: its queue is there and has no message of that id.
unfoldable pub is_fresh : Storage → GoString → GoString → Bool
is_fresh s k id = fresh_in (get s.queues k) id

length_zero : (m : Dict SubPolicy) (k : GoString) → ltb 0 (length m) ≡ false → get m k ≡ none
length_zero [] k h = get-empty {V = SubPolicy} k
length_zero (e ∷ m) k h = absurd (ground arith)

owed-add_message :
    (q : QueueState) (msg : MessageState) (m sub : GoString)
    → get q.messages msg.msg_id ≡ none
    → msg.acked_subs ≡ []
    → owed_at (some (add_message q msg)) m sub
      ≡ (if str_eq msg.msg_id m then get msg.sub_list sub else owed_at (some q) m sub)
unfolding owed_at has
owed-add_message q msg m sub absent fresh = elim (Bool-cases (ltb 0 (length msg.sub_list))) [
  | inl e ↦
      rw e
        (ground (arith, get-put q.messages msg.msg_id m msg, fresh, get-empty {V = Unit {0}} sub))
  | inr e ↦ rw e (ground (arith, length_zero msg.sub_list sub e, str_eq_iff msg.msg_id m))
]

-- `Enqueue` of a fresh message owes it to exactly the subscribers that the caller lists, under
-- their listed policies, and changes nothing else that is owed; of a message that is already
-- stored, or in an absent queue, it changes nothing. The caller's list is a map.
pub owed-enqueue :
    (s : Storage) (k id payload : GoString) (subs : Dict SubPolicy) (j m sub : GoString)
    → IsMap subs
    → owed (enqueue s k id payload subs).1 j m sub
      ≡ (if is_fresh s k id && (str_eq k j && str_eq id m) then get subs sub else owed s j m sub)
unfolding enqueue is_fresh has
owed-enqueue s k id payload subs j m sub is_map = elim (Option-cases (get s.queues k)) [
  | inl e ↦ ground (arith, e)
  | inr (q, e) ↦ elim (Option-cases (get q.messages id)) [
    | inl absent ↦
        rw (e, absent)
          (ground (
            arith,
            owed-put s k j (add_message q (new_message s id payload subs)) (next s.next_seq) m sub,
            owed-add_message q (new_message s id payload subs) m sub absent refl,
            copy_subs_lem subs is_map,
            owed_found s k j m sub q e,
          ))
    | inr (msg, present) ↦ ground (arith, e, present)
  ]
]

enqueue_again :
    (s : Storage) (k id payload : GoString) (subs : Dict SubPolicy) (q : QueueState)
    (msg : MessageState)
    → get s.queues k ≡ some q
    → get q.messages id ≡ some msg
    → enqueue s k id payload subs ≡ (ok (to_message_info msg), s)
unfolding enqueue
enqueue_again s k id payload subs q msg e present = rw (e, present)

stored_message :
    (q : QueueState) (msg : MessageState)
    → 0 < length msg.sub_list
    → get (add_message q msg).messages msg.msg_id ≡ some msg
stored_message q msg h = ground (arith, get-put_self q.messages msg.msg_id msg)

-- A publisher that retries `Enqueue` with the id of a message that has subscribers gets the first
-- reply again, whatever payload and list it sends, and the storage stays as the first call left it.
pub enqueue_retry :
    (s : Storage) (k id payload payload' : GoString) (subs subs' : Dict SubPolicy)
    → IsMap subs
    → 0 < length subs
    → let (reply, s') = enqueue s k id payload subs in enqueue s' k id payload' subs' ≡ (reply, s')
unfolding enqueue
enqueue_retry s k id payload payload' subs subs' m some_sub = elim (Option-cases (get s.queues k)) [
  | inl e ↦ rw e (rw e refl)
  | inr (q, e) ↦ elim (Option-cases (get q.messages id)) [
    | inl absent ↦
        rw (e, absent)
          (enqueue_again
            (record {
              queues = put s.queues k (add_message q (new_message s id payload subs));
              next_seq = next s.next_seq;
            })
            k id payload' subs' (add_message q (new_message s id payload subs))
            (new_message s id payload subs)
            (get-put_self s.queues k (add_message q (new_message s id payload subs)))
            (stored_message q (new_message s id payload subs) (rw (copy_subs_lem subs m) some_sub)))
    | inr (msg, present) ↦ rw (e, present) (enqueue_again s k id payload' subs' q msg e present)
  ]
]
