-- ===== src/Tests/Storages.antt =====
-- The storage of dist-mq: a queue with one message for alice and bob.
use simon_mq.Base.{
  ℕ, zero, suc, Option, List, ◌⊎◌, inl, inr, ◌≡◌, refl, arith, none, some, [], ◌∷◌, GoString, codes,
  str_eq,
}
use simon_mq.Dict.{get, has, put}
use simon_mq.DistMq.Storage.{
  QueueState, Storage, new_storage, create_queue, enqueue, ack, delete_queue, put_sub_policy,
  new_message, new_queue, add_message, copy_subs,
}
use simon_mq.DistMq.Storage.Valid.{IsValid, new_storage-IsValid, create_queue-IsValid}
use simon_mq.DistMq.Storage.Preserved.{enqueue-IsValid}
use simon_mq.DistMq.Storage.Owed.{owed, mem, owed-delete_queue, owed-put_sub_policy}
use simon_mq.DistMq.Storage.Delivery.{owed-ack, owed-enqueue, enqueue_retry, is_fresh}
use simon_mq.DistMq.Snapshot.{SnapshotState, take_state, Json}
use simon_mq.Tests.Fixtures.{orders, alice, bob, policy, two_subs, two_subs-IsMap}

abbrev pub first_id : GoString
first_id = codes "m1"

abbrev pub second_id : GoString
second_id = codes "m2"

abbrev pub with_queue : Storage
unfolding create_queue
with_queue = (create_queue new_storage orders).1

abbrev pub with_message : Storage
unfolding enqueue
with_message = (enqueue with_queue orders first_id (codes "one") two_subs).1

pub with_queue-IsValid : IsValid with_queue
unfolding with_queue
with_queue-IsValid = create_queue-IsValid new_storage orders new_storage-IsValid

pub with_message-IsValid : IsValid with_message
unfolding with_message with_queue has
with_message-IsValid =
    enqueue-IsValid with_queue orders first_id (codes "one") two_subs two_subs-IsMap (omega arith)
      with_queue-IsValid

owed-ack_example :
    owed (ack with_message orders first_id (alice ∷ [])).1 orders first_id alice ≡ none
unfolding str_eq mem
owed-ack_example =
    owed-ack with_message orders first_id (alice ∷ []) orders first_id alice with_message-IsValid

owed-enqueue_example :
    owed (enqueue with_message orders second_id (codes "two") two_subs).1 orders first_id alice
    ≡ owed with_message orders first_id alice
unfolding str_eq owed is_fresh get with_message with_queue has put copy_subs
owed-enqueue_example =
    owed-enqueue with_message orders second_id (codes "two") two_subs orders first_id alice
      two_subs-IsMap

enqueue_retry_example :
    let (reply, s) = enqueue with_queue orders first_id (codes "one") two_subs in
    enqueue s orders first_id (codes "two") [] ≡ (reply, s)
enqueue_retry_example =
    enqueue_retry with_queue orders first_id (codes "one") (codes "two") two_subs [] two_subs-IsMap
      (omega arith)

abbrev one_waiting : QueueState
unfolding put
one_waiting =
    add_message (new_queue orders) (new_message with_queue first_id (codes "one") two_subs)

owed-delete_queue_example : owed (delete_queue with_message orders).1 orders first_id alice ≡ none
unfolding str_eq
owed-delete_queue_example = owed-delete_queue with_message orders orders first_id alice

owed-put_sub_policy_example :
    owed (put_sub_policy with_message orders (policy bob)).1 orders first_id bob
    ≡ owed with_message orders first_id bob
owed-put_sub_policy_example =
    owed-put_sub_policy with_message orders orders first_id bob (policy bob)

-- An encoder of two snapshots, by their sequence numbers.
abbrev empty_snapshot : SnapshotState
empty_snapshot = record { next_seq = 0; queues = [] }

abbrev decoded : List ℕ → Option SnapshotState
decoded (zero ∷ []) = some empty_snapshot
decoded (suc zero ∷ []) = some (take_state with_message)
decoded _ = none

IsKnown : SnapshotState → Type 0
IsKnown snap = (snap ≡ empty_snapshot) ⊎ (snap ≡ take_state with_message)

encoded_lem : (snap : SnapshotState) → IsKnown snap → decoded (snap.next_seq ∷ []) ≡ some snap
unfolding IsKnown take_state with_message with_queue create_queue enqueue copy_subs has get put
    str_eq
encoded_lem snap (inl e) = rw e refl
encoded_lem snap (inr e) = rw e refl

abbrev snapshot_json : Json
snapshot_json = record {
  encode = λ snap. snap.next_seq ∷ [];
  decode = decoded;
  IsText = IsKnown;
  decode-encode = encoded_lem;
}
