-- ===== src/DistMq/Delivery/Manager/Due.antt =====
-- dist-mq/delivery/manager.go: what the storage owes is due, and so a sweep schedules it.
use simon_mq.Base.{
  ℕ, ◌≡◌, refl, ◌∙◌, ap, inl, inr, Bool, true, false, ◌||◌, some, List, [], ◌∷◌, map, arith,
  GoString, str_eq, str_eq_iff, str_eq_refl, str_lt, sort, any, any-sort, length, ◌==◌, Bool-cases,
  Option-cases,
}
use simon_mq.Dict.{Dict, get, has}
use simon_mq.Dict.Laws.{get-empty}
use simon_mq.Model.{SubPolicy}
use simon_mq.Pending.{get-pending_into}
use simon_mq.DistMq.Storage.{
  Storage, MessageState, ok, queue_names, pending_messages, messages_in_order, to_message_info,
  sorted_keys, copy_subs, keys, values, by_seq,
}
use simon_mq.DistMq.Storage.Copies.{copy_subs_lem}
use simon_mq.DistMq.Storage.Valid.{IsValid, MessageIsValid}
use simon_mq.DistMq.Storage.Owed.{owed, owed_at, owed_in, owed_of, mem}
use simon_mq.DistMq.Delivery.Queue.{set_of}
use simon_mq.DistMq.Storage.Members.{mem-sort, mem-keys}
use simon_mq.DistMq.Delivery.Worker.Passes.{has-set_of}
use simon_mq.DistMq.Delivery.Manager.{Manager, info_pending, sweep, or_nil}
use simon_mq.DistMq.Delivery.Manager.Sweeps.{is_due, is_due_in, sweep_queues-Covered}

is_due_in-mem :
    (s : Storage) (names : List GoString) (name id : GoString)
    → mem name names ≡ true
    → any (is_due id) (or_nil (pending_messages s name)) ≡ true
    → is_due_in s names id ≡ true
unfolding mem
is_due_in-mem s [] name id h d = absurd cc
is_due_in-mem s (x ∷ names) name id h d = elim (Bool-cases (str_eq x name)) [
  | inl e ↦
      rw (ap (λ n. any (is_due id) (or_nil (pending_messages s n))) ((str_eq_iff x name).0 e) ∙ d)
        refl
  | inr e ↦ ground (arith, is_due_in-mem s names name id (ground arith) d)
]

any-values :
    (test : MessageState → Bool) (m : Dict MessageState) (k : GoString) (v : MessageState)
    → get m k ≡ some v
    → test v ≡ true
    → any test (values m) ≡ true
unfolding get
any-values test [] k v e t = absurd cc
any-values test ((j, w) ∷ m) k v e t = elim (Bool-cases (str_eq j k)) [
  | inl f ↦ let same : w ≡ v = cc (rw f at e) in rw (ap test same ∙ t) refl
  | inr f ↦ ground (arith, any-values test m k v (rw f at e) t)
]

any-map {ℓ κ} :
    {A : Type ℓ} {B : Type κ} (test : B → Bool) (f : A → B) (xs : List A)
    → any test (map f xs) ≡ any (λ x. test (f x)) xs
any-map test f [] = refl
any-map test f (x ∷ xs) = ap (λ b. test (f x) || b) (any-map test f xs)

not_empty :
    (m : Dict SubPolicy) (k : GoString) (p : SubPolicy) → get m k ≡ some p → (length m == 0) ≡ false
not_empty [] k p e = absurd (cc (get-empty {V = SubPolicy} k))
not_empty (x ∷ m) k p e = ground arith

-- A stored message with an unacked subscriber is due.
to_message_info-is_due :
    (b : ℕ) (id sub : GoString) (msg : MessageState) (p : SubPolicy)
    → MessageIsValid b id msg
    → owed_of msg sub ≡ some p
    → is_due id (to_message_info msg) ≡ true
unfolding to_message_info info_pending sorted_keys owed_of
to_message_info-is_due b id sub msg p v e =
    let acked : has (set_of [] (sort str_lt (keys msg.acked_subs))) sub ≡ has msg.acked_subs sub =
      has-set_of [] (sort str_lt (keys msg.acked_subs)) sub
      ∙ (ap (λ b. has {V = Unit {0}} [] sub || b)
            (mem-sort sub (keys msg.acked_subs) ∙ mem-keys msg.acked_subs sub)
          ∙ (unfold has get in refl)) in
    let info = to_message_info msg in
    let left : get (info_pending info) sub ≡ some p =
      get-pending_into [] (copy_subs msg.sub_list) (set_of [] (sort str_lt (keys msg.acked_subs)))
        sub (rw (copy_subs_lem msg.sub_list v.acks.sub_list_map) v.acks.sub_list_map)
      ∙ ground
          (arith, acked, e, ap (λ m. get m sub) (copy_subs_lem msg.sub_list v.acks.sub_list_map)) in
    ground (
      arith,
      not_empty (info_pending info) sub p left,
      ap (λ i. str_eq i id) v.named,
      str_eq_refl id,
    )

owed-is_due :
    (s : Storage) (name id sub : GoString) (p : SubPolicy)
    → IsValid s
    → owed s name id sub ≡ some p
    → (has s.queues name ≡ true) × (any (is_due id) (or_nil (pending_messages s name)) ≡ true)
unfolding owed owed_at owed_in pending_messages messages_in_order has
owed-is_due s name id sub p v e = elim (Option-cases (get s.queues name)) [
  | inl f ↦ absurd (cc (rw f at e))
  | inr (q, f) ↦ elim (Option-cases (get q.messages id)) [
    | inl g ↦ absurd (cc (rw (f, g) at e))
    | inr (msg, g) ↦
        let listed : pending_messages s name ≡ ok (messages_in_order q) =
          rw (f, pending_messages) refl in
        let due =
          to_message_info-is_due s.next_seq id sub msg p ((v.each name q f).each id msg g)
            (rw (f, g) at e) in
        (
          rw f refl,
          ap (λ r. any (is_due id) (or_nil r)) listed
              ∙ (any-map (is_due id) to_message_info (sort by_seq (values q.messages))
                  ∙ (any-sort (λ x. is_due id (to_message_info x)) by_seq (values q.messages)
                      ∙ any-values (λ x. is_due id (to_message_info x)) q.messages id msg g due)),
        )
  ]
]

-- After a sweep of a running manager over a valid storage, every message that the storage still owes
-- to some subscriber is in flight.
pub sweep-covers :
    (s : Storage) (m m' : Manager) (name id sub : GoString) (p : SubPolicy)
    → IsValid s
    → m.running ≡ true
    → sweep s m ≡ some m'
    → owed s name id sub ≡ some p
    → has m'.in_flight id ≡ true
unfolding sweep queue_names
sweep-covers s m m' name id sub p v r e o =
    let (stored, due) = owed-is_due s name id sub p v o in
    (sweep_queues-Covered s m m' (queue_names s) e).covers id r (
      is_due_in-mem s (queue_names s) name id
        (mem-sort name (keys s.queues) ∙ (mem-keys s.queues name ∙ stored)) due)

pub sweep-running : (s : Storage) (m m' : Manager) → sweep s m ≡ some m' → m'.running ≡ m.running
unfolding sweep
sweep-running s m m' e = (sweep_queues-Covered s m m' (queue_names s) e).extends.running
