-- ===== src/DistMq/Storage/Stored.antt =====
-- What is kept in the storage: the messages that somebody is owed.
use simon_mq.Base.{
  ◌<◌, ◌≡◌, refl, ◌∙◌, ap, inl, inr, true, false, Option, none, some, [], ◌∷◌, arith, length,
  GoString, str_eq_iff, str_eq_refl, if◌then◌else◌, Bool-cases, Option-cases,
}
use simon_mq.Dict.{Dict, Set, get, has}
use simon_mq.Dict.Keys.{IsMap, KeysIn, length_le_of_KeysIn}
use simon_mq.Model.{SubPolicy}
use simon_mq.DistMq.Storage.{MessageState, Storage}
use simon_mq.DistMq.Storage.Valid.{AcksIn, MessageIsValid, IsValid}
use simon_mq.DistMq.Storage.Owed.{owed_of, owed_in, owed_at, owed}
use simon_mq.DistMq.Storage.Delivery.{message_at}

-- The first subscriber of the list that has not acked.
unacked : Dict SubPolicy → Set → Option (GoString × SubPolicy)
unacked [] acked = none
unacked ((x, p) ∷ m) acked = if has acked x then unacked m acked else some (x, p)

unacked-none : (m : Dict SubPolicy) (acked : Set) → unacked m acked ≡ none → KeysIn m acked
unfolding unacked has get
unacked-none [] acked h k e = absurd (cc)
unacked-none ((x, p) ∷ m) acked h k e = elim (Bool-cases (has acked x)) [
  | inl a ↦ ground (arith, unacked-none m acked (rest a) k, str_eq_iff x k)
  | inr a ↦ absurd (ground arith)
]
  where
    rest : has acked x ≡ true → unacked m acked ≡ none
    rest a = ground arith

unacked-some :
    (m : Dict SubPolicy) (acked : Set) (x : GoString) (p : SubPolicy)
    → IsMap m
    → unacked m acked ≡ some (x, p)
    → (has acked x ≡ false) × (get m x ≡ some p)
unfolding unacked get
unacked-some [] acked x p h e = absurd (cc)
unacked-some ((y, r) ∷ m) acked x p h e =
    ground (arith, unacked-some m acked x p h.1, str_eq_iff y x, str_eq_refl x, h.0)

owed_of-some :
    (msg : MessageState)
    → AcksIn msg
    → length msg.acked_subs < length msg.sub_list
    → (sub : GoString) × (p : SubPolicy) × (owed_of msg sub ≡ some p)
unfolding owed_of
owed_of-some msg a lt = elim (Option-cases (unacked msg.sub_list msg.acked_subs)) [
  | inl all ↦ absurd (
      omega (
        arith,
        length_le_of_KeysIn msg.sub_list msg.acked_subs a.sub_list_map
            (unacked-none msg.sub_list msg.acked_subs all),
      ))
  | inr ((x, p), found) ↦
      (x, p, ground (arith, unacked-some msg.sub_list msg.acked_subs x p a.sub_list_map found))
]

owed-message_at :
    (s : Storage) (k id sub : GoString) → owed s k id sub ≡ owed_in (message_at s k id) sub
unfolding owed owed_at message_at
owed-message_at s k id sub = ground (arith, Option-cases (get s.queues k))

message_at-IsValid :
    (s : Storage) (k id : GoString) (msg : MessageState)
    → IsValid s
    → message_at s k id ≡ some msg
    → MessageIsValid s.next_seq id msg
unfolding message_at
message_at-IsValid s k id msg v e = elim (Option-cases (get s.queues k)) [
  | inl none_there ↦ absurd (ground arith)
  | inr (q, found) ↦ (v.each k q found).each id msg (ground arith)
]

nothing_owed : (sub : GoString) → owed_in none sub ≡ none
unfolding owed_in
nothing_owed sub = refl

-- A valid storage holds a message exactly as long as some subscriber is owed it.
pub stored_lem :
    (s : Storage) (k id : GoString)
    → IsValid s
    → ((msg : MessageState)
        → message_at s k id ≡ some msg
        → (sub : GoString) × (p : SubPolicy) × (owed s k id sub ≡ some p))
      × ((sub : GoString) (p : SubPolicy)
          → owed s k id sub ≡ some p
          → (msg : MessageState) × (message_at s k id ≡ some msg))
stored_lem s k id v = (
  λ msg e.
      let w = message_at-IsValid s k id msg v e in
      let (sub, p, o) = owed_of-some msg w.acks w.owing in
      (sub, p, owed-message_at s k id sub ∙ (ap (λ o. owed_in o sub) e ∙ unfold owed_in in o)),
  λ sub p o. elim (Option-cases (message_at s k id)) [
    | inl gone ↦ absurd (cc (owed-message_at s k id sub, o, nothing_owed sub, gone))
    | inr there ↦ there
  ],
)
