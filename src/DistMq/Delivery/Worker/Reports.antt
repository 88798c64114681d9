-- ===== src/DistMq/Delivery/Worker/Reports.antt =====
-- dist-mq/delivery/worker.go: how a pass whose ack is accepted leaves the message and the queue.
use simon_mq.Base.{
  ◌≡◌, ◌↔◌, refl, ◌∙◌, sym, ap, inl, inr, Bool, true, false, ◌||◌, Option, none, some, List, [],
  ◌∷◌, ◌++◌, arith, GoString, length, sort, leb→le, le→leb, if◌then◌else◌, ◌==◌, Bool-cases,
}
use simon_mq.Dict.{Set, get, has, put}
use simon_mq.Dict.Keys.{IsMap, put-IsMap, KeysIn, length_le_of_KeysIn, KeysIn-of_length_le}
use simon_mq.Model.{SubPolicy}
use simon_mq.Ring.Valid.{Holds}
use simon_mq.Ring.Add.{add_lem}
use simon_mq.Pending.{empty-cases, is_finished, retries_after}
use simon_mq.DistMq.Delivery.Queue
use simon_mq.DistMq.Delivery.Queue.{Queue, QueueMsg, set_of, pending_subs, is_done}
use simon_mq.DistMq.Delivery.Worker.{
  Report, finished_of, noted_of, counted, acked, closing, requeued, report_finished, process,
  results_of, note_results,
}
use simon_mq.DistMq.Delivery.Worker.Passes.{
  IsListed, has-set_of, get-pending_subs, mem-finished_of, retries-counted,
}

-- A message of the queue: named subscribers, and acks of subscribers only.
pub record IsValid (msg : QueueMsg) : Type 0 where
  pub listed : IsListed msg
  pub acks : IsMap msg.acked_subs
  pub within : KeysIn msg.acked_subs msg.sub_list

-- Every subscriber has acked the message or has used up its attempts.
abbrev pub IsSettled : QueueMsg → Type 0
IsSettled msg = KeysIn msg.sub_list msg.acked_subs

-- The message after a pass whose ack was accepted.
abbrev pub after : (SubPolicy → Bool) → QueueMsg → QueueMsg
after sent msg = acked (counted sent msg) (finished_of sent msg)

set_of-IsMap : (out : Set) (names : List GoString) → IsMap out → IsMap (set_of out names)
set_of-IsMap out [] h = h
set_of-IsMap out (x ∷ xs) h = set_of-IsMap (put out x tt) xs (put-IsMap out x tt h)

module _ (sent : SubPolicy → Bool) (msg : QueueMsg) (v : IsValid msg) (k : GoString) where
  pub has-after :
      has (after sent msg).acked_subs k
      ≡ (has msg.acked_subs k || is_finished sent (get msg.sub_list k) (get msg.retry_map k))
  unfolding counted
  has-after =
      has-set_of msg.acked_subs (finished_of sent msg) k
      ∙ ground (arith, mem-finished_of sent msg v.listed k)

pub after-IsValid :
    (sent : SubPolicy → Bool) (msg : QueueMsg) → IsValid msg → IsValid (after sent msg)
unfolding counted has
after-IsValid sent msg v = record {
  listed = record { is_map = v.listed.is_map; named = v.listed.named };
  acks = set_of-IsMap msg.acked_subs (finished_of sent msg) v.acks;
  within = λ k h. ground (arith, has-after sent msg v k, v.within k);
}

-- With no result the message stays as it is.
after_idle :
    (sent : SubPolicy → Bool) (msg : QueueMsg) → pending_subs msg ≡ [] → after sent msg ≡ msg
unfolding counted finished_of noted_of results_of note_results sort
after_idle sent msg e = rw e refl

pub is_done-IsSettled : (msg : QueueMsg) → IsValid msg → is_done msg ≡ true → IsSettled msg
unfolding is_done
is_done-IsSettled msg v e =
    KeysIn-of_length_le msg.acked_subs msg.sub_list v.acks v.within
      (leb→le (length msg.sub_list) (length msg.acked_subs) e)

pub IsSettled-is_done : (msg : QueueMsg) → IsValid msg → IsSettled msg → is_done msg ≡ true
unfolding is_done
IsSettled-is_done msg v s =
    le→leb (length msg.sub_list) (length msg.acked_subs)
      (length_le_of_KeysIn msg.sub_list msg.acked_subs v.listed.is_map s)

idle-IsSettled : (msg : QueueMsg) → IsValid msg → pending_subs msg ≡ [] → IsSettled msg
unfolding has get
idle-IsSettled msg v e k h =
    let nobody : get (pending_subs msg) k ≡ none = rw e refl in
    ground (arith, get-pending_subs msg k v.listed.is_map, nobody)

-- The queue behind a report: without the message if it is done, else with it behind the others.
pub record Reported (q : Queue) (xs : List QueueMsg) (msg : QueueMsg) (r : Report) : Type 0 where
  pub left : r.msg ≡ msg
  pub done : r.done ≡ is_done msg
  pub held : Holds r.queue.ring (if is_done msg then xs else xs ++ msg ∷ [])

module _ (q : Queue) (xs : List QueueMsg) (h : Holds q.ring xs) where
  requeued_lem :
      (msg : QueueMsg) (ack : Option (List GoString))
      → (q' : Queue) × (requeued q msg ack
          ≡ some (record { queue = q'; msg = msg; ack = ack; done = false }))
        × Holds q'.ring (xs ++ msg ∷ [])
  unfolding Queue.add
  requeued_lem msg ack =
      let (ring, added, held, woken) = add_lem q.ring xs msg h in
      (record q { ring = ring }, rw added refl, held)

  closing_lem :
      (msg : QueueMsg) (ack : Option (List GoString))
      → (r : Report) × (closing q msg ack ≡ some r) × Reported q xs msg r
  closing_lem msg ack = elim (Bool-cases (is_done msg)) [
    | inl e ↦ (
      record { queue = q; msg = msg; ack = ack; done = true },
      rw e refl,
      record { left = refl; done = sym e; held = rw e h },
    )
    | inr e ↦
        let (q', added, held) = requeued_lem msg ack in
        (
          record { queue = q'; msg = msg; ack = ack; done = false },
          rw e added,
          record { left = refl; done = sym e; held = rw e held },
        )
  ]

  report_finished_lem :
      (msg : QueueMsg) (names : List GoString)
      → (r : Report) × (report_finished true q msg names ≡ some r)
        × Reported q xs (acked msg names) r
  report_finished_lem msg [] = closing_lem msg none
  report_finished_lem msg (x ∷ names) = closing_lem (acked msg (x ∷ names)) (some (x ∷ names))

  -- A pass over a valid message whose ack is accepted, by a worker that is not stopped.
  pub process_lem :
      (sent : SubPolicy → Bool) (msg : QueueMsg)
      → IsValid msg
      → (r : Report) × (process sent false true q msg ≡ some r) × Reported q xs (after sent msg) r
  unfolding process
  process_lem sent msg v = elim (empty-cases (pending_subs msg)) [
    | inl e ↦
        let done : is_done msg ≡ true = IsSettled-is_done msg v (idle-IsSettled msg v e) in
        (
          record { queue = q; msg = msg; ack = none; done = true },
          rw e refl,
          record {
            left = sym (after_idle sent msg e);
            done = sym done ∙ ap is_done (sym (after_idle sent msg e));
            held = rw (after_idle sent msg e, done) h;
          },
        )
    | inr e ↦ rw e (report_finished_lem (counted sent msg) (finished_of sent msg))
  ]

  -- In a pass over a valid message, by a worker that is not stopped and whose ack is accepted, a
  -- pending subscriber ends up acked exactly if it took the message or has used up its attempts, and
  -- each other attempt is counted; the others keep their ack and their count. The message leaves the
  -- queue as done if every subscriber is acked, and goes to its end if not.
  pub process-subscribers :
      (sent : SubPolicy → Bool) (msg : QueueMsg)
      → IsValid msg
      → (r : Report) × (process sent false true q msg ≡ some r)
        × ((k : GoString)
            → has r.msg.acked_subs k ≡ (
                has msg.acked_subs k
                || is_finished sent (get msg.sub_list k) (get msg.retry_map k)))
        × ((k : GoString)
            → get r.msg.retry_map k ≡ (
                if has msg.acked_subs k
                then get msg.retry_map k
                else retries_after sent (get msg.sub_list k) (get msg.retry_map k)))
        × (r.done ≡ true ↔ IsSettled r.msg)
        × Holds r.queue.ring (if r.done then xs else xs ++ r.msg ∷ [])
  process-subscribers sent msg v =
      let (r, e, p) = process_lem sent msg v in
      let w = after-IsValid sent msg v in
      (
        r,
        e,
        (λ k. ap (λ m. has m.acked_subs k) p.left ∙ has-after sent msg v k),
        (λ k. ap (λ m. get m.retry_map k) p.left ∙ retries-counted sent msg v.listed k),
        rw p.left (
          (λ d. is_done-IsSettled (after sent msg) w (sym p.done ∙ d)),
          (λ s. p.done ∙ IsSettled-is_done (after sent msg) w s),
        ),
        rw (p.left, p.done) p.held,
      )

  refused_lem :
      (msg : QueueMsg) (names : List GoString)
      → is_done msg ≡ false
      → (r : Report) × (report_finished false q msg names ≡ some r)
        × (r.msg ≡ msg)
        × (r.done ≡ false)
        × Holds r.queue.ring (xs ++ msg ∷ [])
  refused_lem msg [] e =
      let (r, made, p) = closing_lem msg none in (r, made, p.left, p.done ∙ e, rw e at p.held)
  refused_lem msg (x ∷ names) e =
      let (q', added, held) = requeued_lem msg (some (x ∷ names)) in
      (
        record { queue = q'; msg = msg; ack = some (x ∷ names); done = false },
        added,
        refl,
        refl,
        held,
      )

  -- If the ack of a pass over an unfinished valid message is refused, the message stays: it goes to
  -- the end of the queue, with the acks that it had, and is not reported as done.
  pub process_refused :
      (sent : SubPolicy → Bool) (msg : QueueMsg)
      → IsValid msg
      → is_done msg ≡ false
      → (r : Report) × (process sent false false q msg ≡ some r)
        × (r.msg.acked_subs ≡ msg.acked_subs)
        × (r.done ≡ false)
        × Holds r.queue.ring (xs ++ r.msg ∷ [])
  unfolding process counted is_done
  process_refused sent msg v e = elim (empty-cases (pending_subs msg)) [
    | inl f ↦ absurd (cc (IsSettled-is_done msg v (idle-IsSettled msg v f), e))
    | inr f ↦
        let (r, made, left, done, held) = refused_lem (counted sent msg) (finished_of sent msg) e in
        (r, rw f made, ap (λ m. m.acked_subs) left, done, rw left held)
  ]

  -- Whether the ack is accepted or not, the pass of a worker that is not stopped keeps the message
  -- or reports it as done.
  pub process_kept :
      (sent : SubPolicy → Bool) (ack_ok : Bool) (msg : QueueMsg)
      → (r : Report) × (process sent false ack_ok q msg ≡ some r)
        × (r.msg.msg_id ≡ msg.msg_id)
        × Holds r.queue.ring (if r.done then xs else xs ++ r.msg ∷ [])
  unfolding process counted
  process_kept sent ack_ok msg = elim (Bool-cases (length (pending_subs msg) == 0)) [
    | inl e ↦ (record { queue = q; msg = msg; ack = none; done = true }, rw e refl, refl, h)
    | inr e ↦ rw e (finished_kept ack_ok (counted sent msg) (finished_of sent msg))
  ]
    where
      closing_kept :
          (m : QueueMsg) (ack : Option (List GoString))
          → (r : Report) × (closing q m ack ≡ some r)
            × (r.msg.msg_id ≡ m.msg_id)
            × Holds r.queue.ring (if r.done then xs else xs ++ r.msg ∷ [])
      closing_kept m ack =
          let (r, made, p) = closing_lem m ack in
          (r, made, ap (λ x. x.msg_id) p.left, rw (p.left, p.done) p.held)

      finished_kept :
          (ok : Bool) (m : QueueMsg) (names : List GoString)
          → (r : Report) × (report_finished ok q m names ≡ some r)
            × (r.msg.msg_id ≡ m.msg_id)
            × Holds r.queue.ring (if r.done then xs else xs ++ r.msg ∷ [])
      finished_kept ok m [] = closing_kept m none
      finished_kept true m (x ∷ names) = closing_kept (acked m (x ∷ names)) (some (x ∷ names))
      finished_kept false m (x ∷ names) =
          let (q', added, held) = requeued_lem m (some (x ∷ names)) in
          (record { queue = q'; msg = m; ack = some (x ∷ names); done = false }, added, refl, held)
