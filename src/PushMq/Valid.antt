-- ===== src/PushMq/Valid.antt =====
-- push-mq/broker.go: what every sequence of calls keeps.
use simon_mq.Base.{
  ℕ, ◌+◌, ◌≤◌, ◌≡◌, ◌≢◌, refl, ◌∙◌, sym, inl, inr, arith, true, some, List, [], length, GoString,
  leb, Bool-cases,
}
use simon_mq.Dict.{get, has, put, delete}
use simon_mq.Dict.Laws.{get-empty}
use simon_mq.Dict.Keys.{IsMap, put-IsMap, delete-IsMap, length-put, length-delete}
use simon_mq.Dict.Entries.{each-put, each-delete}
use simon_mq.Model.{pos, SubPolicy}
use simon_mq.Ring.Valid.{Holds, new_ring-Holds}
use simon_mq.PushMq.Queue.{Queue, QueueMsg, new_queue}
use simon_mq.PushMq.Broker.{Broker, new_broker, create_queue, delete_queue}

-- A stored policy has a name and an address, and between 0 and 100 retries.
pub record PolicyIsValid (k : GoString) (p : SubPolicy) : Type 0 where
  pub named : p.sub_name ≡ k
  pub some_name : p.sub_name ≢ []
  pub some_url : p.sub_url ≢ []
  pub retries : (n : ℕ) × (p.number_of_retries ≡ pos n) × (n ≤ 100)

pub record QueueIsValid (k : GoString) (q : Queue) : Type 0 where
  pub named : q.name ≡ k
  pub holds : (ms : List QueueMsg) × Holds q.ring ms
  pub policies : (j : GoString) (p : SubPolicy) → get q.sub_policies j ≡ some p → PolicyIsValid j p

pub record IsValid (b : Broker) : Type 0 where
  pub queues_map : IsMap b.queues
  pub counted : b.num_queues ≡ length b.queues
  pub limited : length b.queues ≤ 128
  pub each : (k : GoString) (q : Queue) → get b.queues k ≡ some q → QueueIsValid k q

pub new_broker-IsValid : IsValid new_broker
new_broker-IsValid = record {
  queues_map = tt;
  counted = refl;
  limited = omega arith;
  each = λ k q e. absurd (cc (get-empty {V = Queue} k));
}

new_queue-IsValid : (k : GoString) → QueueIsValid k (new_queue k)
new_queue-IsValid k = record {
  named = refl;
  holds = ([], new_ring-Holds);
  policies = λ j p e. absurd (cc (get-empty {V = SubPolicy} j));
}

-- A queue that is there is changed in place.
pub replaced :
    (b : Broker) (k : GoString) (q q' : Queue)
    → IsValid b
    → get b.queues k ≡ some q
    → QueueIsValid k q'
    → IsValid (record b { queues = put b.queues k q' })
replaced b k q q' v e w =
    let present : has b.queues k ≡ true = unfold has in rw e refl in
    let same : length (put b.queues k q') ≡ length b.queues =
      length-put b.queues k q' ∙ rw present refl in
    record {
      queues_map = put-IsMap b.queues k q' v.queues_map;
      counted = v.counted ∙ sym same;
      limited = omega (arith, same, v.limited);
      each = each-put QueueIsValid b.queues k v.each q' w;
    }

pub create_queue-IsValid : (b : Broker) (k : GoString) → IsValid b → IsValid (create_queue b k).1
unfolding create_queue
create_queue-IsValid b k v = elim (Bool-cases (has b.queues k)) [
  | inl e ↦ rw e v
  | inr e ↦ elim (Bool-cases (leb 128 b.num_queues)) [
    | inl full ↦ rw (e, full) v
    | inr room ↦
        let longer : length (put b.queues k (new_queue k)) ≡ length b.queues + 1 =
          length-put b.queues k (new_queue k) ∙ rw e refl in
        rw (e, room)
          (record {
            queues_map = put-IsMap b.queues k (new_queue k) v.queues_map;
            counted = omega (arith, longer, v.counted);
            limited = ground (arith, longer, v.counted, v.limited, room);
            each = each-put QueueIsValid b.queues k v.each (new_queue k) (new_queue-IsValid k);
          })
  ]
]

pub delete_queue-IsValid : (b : Broker) (k : GoString) → IsValid b → IsValid (delete_queue b k)
unfolding delete_queue
delete_queue-IsValid b k v = elim (Bool-cases (has b.queues k)) [
  | inl e ↦
      let shorter : length b.queues ≡ length (delete b.queues k) + 1 =
        length-delete b.queues k v.queues_map ∙ rw e refl in
      rw e (record {
        queues_map = delete-IsMap b.queues k v.queues_map;
        counted = omega (arith, shorter, v.counted);
        limited = omega (arith, shorter, v.limited);
        each = each-delete QueueIsValid b.queues k v.each;
      })
  | inr e ↦ rw e v
]
