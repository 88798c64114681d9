-- ===== src/PushMq/Calls.antt =====
-- push-mq/broker.go: any sequence of calls.
use simon_mq.Base.{
  ℕ, ◌≤◌, ◌≡◌, ◌≢◌, refl, subst, inl, inr, arith, Bool, true, false, ◌++◌, Option, none, some, List,
  [], ◌∷◌, GoString, if◌then◌else◌, ◌>>=◌, Option-cases,
}
use simon_mq.Dict.{get, put, delete}
use simon_mq.Dict.Entries.{each-put, each-delete}
use simon_mq.Model.{ℤ, pos, negsuc, SubPolicy}
use simon_mq.Ring.Add.{add_lem}
use simon_mq.PushMq.Queue
use simon_mq.PushMq.Queue.{
  Queue, QueueMsg, new_queue_msg, is_valid_sub_metadata, initialize_default_sub_metadata_fields,
  default_retries, over_hundred, is_empty, add,
}
use simon_mq.PushMq.Broker.{
  Broker, Reply, new_broker, create_queue, delete_queue, enqueue, add_subscriber, update_subscriber,
  remove_subscriber, changed, done, does_not_exist,
}
use simon_mq.PushMq.Valid.{
  PolicyIsValid, QueueIsValid, IsValid, new_broker-IsValid, create_queue-IsValid,
  delete_queue-IsValid, replaced,
}

default_retries-bound :
    (n : ℤ) → over_hundred n ≡ false → (m : ℕ) × (default_retries n ≡ pos m) × (m ≤ 100)
default_retries-bound (pos n) h = (n, refl, ground (arith, h))
default_retries-bound (negsuc n) h = (3, refl, omega arith)

not_empty : (s : GoString) → is_empty s ≡ false → s ≢ []
not_empty [] h e = cc
not_empty (c ∷ s) h e = cc

initialized-PolicyIsValid :
    (p : SubPolicy)
    → is_valid_sub_metadata p ≡ true
    → PolicyIsValid p.sub_name (initialize_default_sub_metadata_fields p)
unfolding is_valid_sub_metadata initialize_default_sub_metadata_fields
initialized-PolicyIsValid p h = record {
  named = refl;
  some_name = not_empty p.sub_name (ground (arith, h));
  some_url = not_empty p.sub_url (ground (arith, h));
  retries = default_retries-bound p.number_of_retries (ground (arith, h));
}

-- A changed queue is valid where the change is accepted.
changed-IsValid :
    (b : Broker) (k : GoString) (q : Queue) (o : Option Queue)
    → IsValid b
    → get b.queues k ≡ some q
    → ((q' : Queue) → o ≡ some q' → QueueIsValid k q')
    → IsValid (changed o b k).1
changed-IsValid b k q none v e f = v
changed-IsValid b k q (some q') v e f = replaced b k q q' v e (f q' refl)

subscribed-QueueIsValid :
    (k : GoString) (q : Queue) (p : SubPolicy) (q' : Queue)
    → QueueIsValid k q
    → Queue.add_subscriber q p ≡ some q'
    → QueueIsValid k q'
unfolding Queue.add_subscriber
subscribed-QueueIsValid k q p q' v = accepted (is_valid_sub_metadata p) refl
  where
    next : Queue
    next = record q {
      sub_policies = put q.sub_policies p.sub_name (initialize_default_sub_metadata_fields p);
    }

    accepted :
        (b : Bool)
        → is_valid_sub_metadata p ≡ b
        → (if b then some next else none) ≡ some q'
        → QueueIsValid k q'
    accepted false h e = absurd cc
    accepted true h e =
        let same : next ≡ q' = cc in
        subst (QueueIsValid k) same (record {
          named = v.named;
          holds = v.holds;
          policies =
              each-put PolicyIsValid q.sub_policies p.sub_name v.policies
                (initialize_default_sub_metadata_fields p) (initialized-PolicyIsValid p h);
        })

updated-QueueIsValid :
    (k : GoString) (q : Queue) (p : SubPolicy) (q' : Queue)
    → QueueIsValid k q
    → Queue.update_subscriber q p ≡ some q'
    → QueueIsValid k q'
unfolding Queue.add_subscriber Queue.update_subscriber
updated-QueueIsValid k q p q' v e = subscribed-QueueIsValid k q p q' v e

add_subscriber-IsValid :
    (b : Broker) (p : SubPolicy) (k : GoString) → IsValid b → IsValid (add_subscriber b p k).1
unfolding add_subscriber
add_subscriber-IsValid b p k v = elim (Option-cases (get b.queues k)) [
  | inl e ↦ rw e v
  | inr (q, e) ↦ rw e (
      changed-IsValid b k q (Queue.add_subscriber q p) v e
        (λ q' f. subscribed-QueueIsValid k q p q' (v.each k q e) f))
]

update_subscriber-IsValid :
    (b : Broker) (p : SubPolicy) (k : GoString) → IsValid b → IsValid (update_subscriber b p k).1
unfolding update_subscriber
update_subscriber-IsValid b p k v = elim (Option-cases (get b.queues k)) [
  | inl e ↦ rw e v
  | inr (q, e) ↦ rw e (
      changed-IsValid b k q (Queue.update_subscriber q p) v e
        (λ q' f. updated-QueueIsValid k q p q' (v.each k q e) f))
]

remove_subscriber-IsValid :
    (b : Broker) (x k : GoString) → IsValid b → IsValid (remove_subscriber b x k).1
unfolding remove_subscriber Queue.remove_subscriber
remove_subscriber-IsValid b x k v = elim (Option-cases (get b.queues k)) [
  | inl e ↦ rw e v
  | inr (q, e) ↦
      let w = v.each k q e in
      rw e (
        replaced b k q (record q { sub_policies = delete q.sub_policies x }) v e
          (record {
            named = w.named;
            holds = w.holds;
            policies = each-delete PolicyIsValid q.sub_policies x w.policies;
          }))
]

enqueue-IsValid :
    (b : Broker) (uuid k payload : GoString)
    → IsValid b
    → (r : Reply × Broker) × (enqueue b uuid k payload ≡ some r) × IsValid r.1
unfolding enqueue add
enqueue-IsValid b uuid k payload v = elim (Option-cases (get b.queues k)) [
  | inl e ↦ ((does_not_exist, b), rw e refl, v)
  | inr (q, e) ↦
      let w = v.each k q e in
      let msg = new_queue_msg uuid k payload in
      let (ring, added, h, woken) = add_lem q.ring w.holds.0 msg w.holds.1 in
      let q' : Queue = record q { ring = ring } in
      (
        (done, record b { queues = put b.queues k q' }),
        rw (e, added) refl,
        replaced b k q q' v e
            (record { named = w.named; holds = (w.holds.0 ++ msg ∷ [], h); policies = w.policies }),
      )
]

-- A request to the broker.
pub data Call : Type 0 where
  create drop : GoString → Call
  send : GoString → GoString → GoString → Call
  subscribe resubscribe : SubPolicy → GoString → Call
  unsubscribe : GoString → GoString → Call

-- The broker after the request, absent after a panic.
unfoldable pub call : Broker → Call → Option Broker
call b (create k) = some (create_queue b k).1
call b (drop k) = some (delete_queue b k)
call b (send uuid k payload) = do r ← enqueue b uuid k payload; some r.1
call b (subscribe p k) = some (add_subscriber b p k).1
call b (resubscribe p k) = some (update_subscriber b p k).1
call b (unsubscribe x k) = some (remove_subscriber b x k).1

unfoldable pub calls : Broker → List Call → Option Broker
calls b [] = some b
calls b (x ∷ xs) = do b' ← call b x; calls b' xs

call-IsValid :
    (b : Broker) (x : Call) → IsValid b → (b' : Broker) × (call b x ≡ some b') × IsValid b'
unfolding call
call-IsValid b (create k) v = (_, refl, create_queue-IsValid b k v)
call-IsValid b (drop k) v = (_, refl, delete_queue-IsValid b k v)
call-IsValid b (send uuid k payload) v =
    let (r, e, w) = enqueue-IsValid b uuid k payload v in (r.1, rw e refl, w)
call-IsValid b (subscribe p k) v = (_, refl, add_subscriber-IsValid b p k v)
call-IsValid b (resubscribe p k) v = (_, refl, update_subscriber-IsValid b p k v)
call-IsValid b (unsubscribe x k) v = (_, refl, remove_subscriber-IsValid b x k v)

calls-from :
    (b : Broker) (xs : List Call) → IsValid b → (b' : Broker) × (calls b xs ≡ some b') × IsValid b'
unfolding calls
calls-from b [] v = (b, refl, v)
calls-from b (x ∷ xs) v =
    let (b1, e, v1) = call-IsValid b x v in
    let (b2, f, v2) = calls-from b1 xs v1 in (b2, rw (e, f) refl, v2)

-- No sequence of requests makes the broker panic, and after it the count of queues is their number,
-- at most 128, each stands under its name, and every stored policy has a name, an address, and
-- between 0 and 100 retries.
pub calls-IsValid : (xs : List Call) → (b : Broker) × (calls new_broker xs ≡ some b) × IsValid b
calls-IsValid xs = calls-from new_broker xs new_broker-IsValid
