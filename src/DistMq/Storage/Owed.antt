-- ===== src/DistMq/Storage/Owed.antt =====
-- The storage as a client of the delivery sees it: which subscriber is owed which message of which
-- queue, and under what policy. Every mutation is a plain update of that view.
use simon_mq.Base.{
  ℕ, ◌≤◌, ◌≡◌, refl, inl, inr, Bool, true, false, ◌||◌, Option, none, some, List, [], ◌∷◌, arith,
  length, GoString, str_eq, str_eq_iff, if◌then◌else◌, Bool-cases, Option-cases, leb, leb→le,
}
use simon_mq.Dict.{get, has, put, delete}
use simon_mq.Dict.Laws.{get-put, get-delete, get-empty}
use simon_mq.Dict.Keys.{KeysIn-of_length_le}
use simon_mq.Model.{SubPolicy}
use simon_mq.DistMq.Storage.{
  MessageState, QueueState, Storage, create_queue, delete_queue, put_sub_policy, delete_sub_policy,
  ack_sub, ack_subs, settle,
}
use simon_mq.DistMq.Storage.Valid.{AcksIn}

-- The policy under which the message is still owed to `sub`.
unfoldable pub owed_of : MessageState → GoString → Option SubPolicy
owed_of msg sub = if has msg.acked_subs sub then none else get msg.sub_list sub

unfoldable pub owed_in : Option MessageState → GoString → Option SubPolicy
unfolding owed_of
owed_in none sub = none
owed_in (some msg) sub = owed_of msg sub

unfoldable pub owed_at : Option QueueState → GoString → GoString → Option SubPolicy
unfolding owed_in
owed_at none id sub = none
owed_at (some q) id sub = owed_in (get q.messages id) sub

unfoldable pub owed : Storage → GoString → GoString → GoString → Option SubPolicy
unfolding owed_at
owed s k id sub = owed_at (get s.queues k) id sub

unfoldable pub mem : GoString → List GoString → Bool
mem x [] = false
mem x (y ∷ ys) = str_eq y x || mem x ys

-- One ack settles one subscriber.
owed_of-ack_sub :
    (msg : MessageState) (x sub : GoString)
    → owed_of (ack_sub msg x) sub ≡ (if str_eq x sub then none else owed_of msg sub)
unfolding owed_of ack_sub has
owed_of-ack_sub msg x sub = ground (arith, get-put msg.acked_subs x sub tt, str_eq_iff x sub)

pub owed_of-ack_subs :
    (msg : MessageState) (names : List GoString) (sub : GoString)
    → owed_of (ack_subs msg names) sub ≡ (if mem sub names then none else owed_of msg sub)
unfolding ack_subs mem
owed_of-ack_subs msg [] sub = refl
owed_of-ack_subs msg (x ∷ xs) sub =
    ground (arith, owed_of-ack_subs (ack_sub msg x) xs sub, owed_of-ack_sub msg x sub)

-- Where as many subscribers have acked as there are, nobody is owed the message.
settled :
    (msg : MessageState) (sub : GoString)
    → AcksIn msg
    → length msg.sub_list ≤ length msg.acked_subs
    → owed_of msg sub ≡ none
unfolding owed_of has
settled msg sub a le =
    ground (arith, KeysIn-of_length_le msg.acked_subs msg.sub_list a.acked_map a.within le sub)

-- The messages of a queue after `settle`, in the view.
pub owed-settle :
    (q : QueueState) (id : GoString) (msg : MessageState) (j sub : GoString)
    → AcksIn msg
    → owed_at (some (settle q id msg)) j sub
      ≡ (if str_eq id j then owed_of msg sub else owed_at (some q) j sub)
unfolding owed_at
owed-settle q id msg j sub a =
    elim (Bool-cases (leb (length msg.sub_list) (length msg.acked_subs))) [
      | inl e ↦ rw e (
          ground (
            arith,
            get-delete q.messages id j,
            settled msg sub a (leb→le (length msg.sub_list) (length msg.acked_subs) e),
          ))
      | inr e ↦ rw e (ground (arith, get-put q.messages id j msg))
    ]

-- One queue is written: the view changes there alone.
pub owed-put :
    (s : Storage) (k j : GoString) (q : QueueState) (n : ℕ) (id sub : GoString)
    → owed (record { queues = put s.queues k q; next_seq = n }) j id sub
      ≡ (if str_eq k j then owed_at (some q) id sub else owed s j id sub)
unfolding owed
owed-put s k j q n id sub = ground (arith, get-put s.queues k j q)

module _ (s : Storage) (k : GoString) (j id sub : GoString) where
  pub owed_found :
      (q : QueueState)
      → get s.queues k ≡ some q
      → str_eq k j ≡ true
      → owed s j id sub ≡ owed_at (some q) id sub
  unfolding owed
  owed_found q e same = ground (arith, str_eq_iff k j)

  pub owed_missing : get s.queues k ≡ none → str_eq k j ≡ true → owed s j id sub ≡ none
  unfolding owed
  owed_missing e same = ground (arith, str_eq_iff k j)

  -- `DeleteQueue` cancels what the queue owed and nothing else.
  pub owed-delete_queue :
      owed (delete_queue s k).1 j id sub ≡ (if str_eq k j then none else owed s j id sub)
  unfolding owed delete_queue has
  owed-delete_queue = ground (arith, get-delete s.queues k j, str_eq_iff k j)

  pub owed-create_queue : owed (create_queue s k).1 j id sub ≡ owed s j id sub
  unfolding create_queue owed owed_at has
  owed-create_queue = ground (
    arith,
    get-put s.queues k j (record { name = k; subs = []; messages = [] }),
    str_eq_iff k j,
    get-empty {V = MessageState} id,
  )

  -- A change of the subscribers of a queue leaves what its stored messages owe: each message has its
  -- own list.
  pub owed-put_sub_policy :
      (p : SubPolicy) → owed (put_sub_policy s k p).1 j id sub ≡ owed s j id sub
  unfolding put_sub_policy owed
  owed-put_sub_policy p = elim (Option-cases (get s.queues k)) [
    | inl e ↦ rw e
    | inr (q, e) ↦ rw e (
        ground (
          arith,
          e,
          get-put s.queues k j (record q { subs = put q.subs p.sub_name p }),
          str_eq_iff k j,
        ))
  ]

  pub owed-delete_sub_policy :
      (x : GoString) → owed (delete_sub_policy s k x).1 j id sub ≡ owed s j id sub
  unfolding delete_sub_policy owed
  owed-delete_sub_policy x = elim (Option-cases (get s.queues k)) [
    | inl e ↦ rw e
    | inr (q, e) ↦ rw e (
        ground
          (arith, e, get-put s.queues k j (record q { subs = delete q.subs x }), str_eq_iff k j))
  ]
