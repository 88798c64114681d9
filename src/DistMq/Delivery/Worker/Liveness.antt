-- ===== src/DistMq/Delivery/Worker/Liveness.antt =====
-- dist-mq/delivery/worker.go: a worker whose acks are accepted gets through its queue.
use simon_mq.Base.{
  ℕ, zero, suc, ◌+◌, ◌≤◌, ◌≡◌, refl, ◌∙◌, sym, ap, inl, inr, Bool, true, false, none, some, List,
  [], ◌∷◌, ◌++◌, arith, GoString, map, length, length-append, subst, if◌then◌else◌, Bool-cases,
  Option-cases,
}
use simon_mq.Dict.{get, has}
use simon_mq.Model.{ℤ, SubPolicy, reached, or_zero}
use simon_mq.Ring.Valid.{Holds}
use simon_mq.DistMq.Delivery.Queue
use simon_mq.DistMq.Delivery.Queue.{Queue, QueueMsg, is_done}
use simon_mq.DistMq.Delivery.Queue.Fifo.{pop_ring_lem, pop_ring_empty}
use simon_mq.DistMq.Delivery.Worker.{Report, Env, counted, pass, run}
use simon_mq.DistMq.Delivery.Worker.Passes.{retries-counted}
use simon_mq.Pending.{is_finished, retries_after}
use simon_mq.DistMq.Delivery.Worker.Reports.{
  IsValid, IsSettled, IsSettled-is_done, is_done-IsSettled, after, after-IsValid, has-after,
  process_lem,
}

-- After `n` more failures each pending subscriber is out of attempts.
abbrev pub Within : ℕ → QueueMsg → Type 0
Within n msg =
    (k : GoString) (p : SubPolicy)
    → get msg.sub_list k ≡ some p
    → has msg.acked_subs k ≡ false
    → reached (or_zero (get msg.retry_map k) + n) p.number_of_retries ≡ true

reached_eq : (a b : ℕ) (limit : ℤ) → a ≡ b → reached a limit ≡ reached b limit
reached_eq a b limit e = ap (λ n. reached n limit) e

module _ (sent : SubPolicy → Bool) (msg : QueueMsg) (v : IsValid msg) where
  after-Within : (n : ℕ) → Within (n + 1) msg → Within n (after sent msg)
  unfolding counted
  after-Within n w k p e f =
      let found = has-after sent msg v k in
      let count = retries-counted sent msg v.listed k in
      let old : has msg.acked_subs k ≡ false = ground (arith, found) in
      let failed : sent p ≡ false =
        ground (arith, found, ap (λ o. is_finished sent o (get msg.retry_map k)) e) in
      let one_more : get (after sent msg).retry_map k ≡ some (or_zero (get msg.retry_map k) + 1) =
        count
        ∙ ground (arith, old, ap (λ o. retries_after sent o (get msg.retry_map k)) e, failed) in
      reached_eq (or_zero (get (after sent msg).retry_map k) + n)
        (or_zero (get msg.retry_map k) + (n + 1)) p.number_of_retries
        (ap (λ o. or_zero o + n) one_more ∙ omega arith)
      ∙ w k p e old

  after-IsSettled : Within 1 msg → IsSettled (after sent msg)
  unfolding counted has
  after-IsSettled w k h = elim (Option-cases (get msg.sub_list k)) [
    | inl e ↦ absurd cc
    | inr (p, e) ↦ ground (
      arith,
      has-after sent msg v k,
      ap (λ o. is_finished sent o (get msg.retry_map k)) e,
      w k p e,
    )
  ]

-- Each message of a queue with the number of passes that settles it.
abbrev pub Budgeted : List ℕ → List QueueMsg → Type 0
Budgeted [] [] = Unit
Budgeted (n ∷ ns) (m ∷ ms) = (1 ≤ n) × IsValid m × Within n m × Budgeted ns ms
Budgeted [] (m ∷ ms) = ⊥
Budgeted (n ∷ ns) [] = ⊥

abbrev pub sum : List ℕ → ℕ
sum [] = 0
sum (n ∷ ns) = n + sum ns

sum-append : (ns : List ℕ) (n : ℕ) → sum (ns ++ n ∷ []) ≡ sum ns + n
sum-append [] n = omega arith
sum-append (x ∷ ns) n = omega (arith, sum-append ns n)

append-Budgeted :
    (ns : List ℕ) (ms : List QueueMsg) (n : ℕ) (m : QueueMsg)
    → Budgeted ns ms
    → 1 ≤ n
    → IsValid m
    → Within n m
    → Budgeted (ns ++ n ∷ []) (ms ++ m ∷ [])
append-Budgeted [] [] n m b l v w = (l, v, w, tt)
append-Budgeted (x ∷ ns) (y ∷ ms) n m b l v w = (b.0, b.1, b.2, append-Budgeted ns ms n m b.3 l v w)
append-Budgeted [] (y ∷ ms) n m b l v w = absurd b
append-Budgeted (x ∷ ns) [] n m b l v w = absurd b

-- A worker that is not stopped and whose acks are accepted.
abbrev pub accepting : (SubPolicy → Bool) → Env
accepting sent = record { sent = sent; stopped = false; ack_ok = true }

-- The messages that were reported as done.
unfoldable pub done_msgs : List Report → List QueueMsg
done_msgs [] = []
done_msgs (r ∷ rs) = if r.done then r.msg ∷ done_msgs rs else done_msgs rs

unfoldable pub AllSettled : List QueueMsg → Type 0
AllSettled [] = Unit
AllSettled (m ∷ ms) = IsSettled m × AllSettled ms

-- The worker ends with an empty queue, and has reported `count` settled messages as done.
pub record Drained (count : ℕ) (reports : List Report) (q : Queue) : Type 0 where
  pub empty : Holds q.ring []
  pub all : length (done_msgs reports) ≡ count
  pub settled : AllSettled (done_msgs reports)

pass_idle : (env : Env) (q : Queue) → Holds q.ring [] → pass env q ≡ some (none, q)
unfolding pass Queue.pop
pass_idle env q h = rw (pop_ring_empty q.ring h) refl

-- A pass over the first message.
pass_lem :
    (sent : SubPolicy → Bool) (q : Queue) (m : QueueMsg) (ms : List QueueMsg)
    → IsValid m
    → Holds q.ring (m ∷ ms)
    → (r : Report) × (pass (accepting sent) q ≡ some (some r, r.queue))
      × (r.msg ≡ after sent m)
      × (r.done ≡ is_done (after sent m))
      × Holds r.queue.ring (if is_done (after sent m) then ms else ms ++ after sent m ∷ [])
unfolding pass Queue.pop
pass_lem sent q m ms v h =
    let (ring, popped, held) = pop_ring_lem q.ring m ms h in
    let (r, made, p) = process_lem (record q { ring = ring }) ms held sent m v in
    (r, rw (popped, made) refl, p.left, p.done, p.held)

-- What is left of a budget after a pass.
left_over :
    (sent : SubPolicy → Bool) (n : ℕ) (m : QueueMsg) (ns : List ℕ) (ms : List QueueMsg)
    → Budgeted (n ∷ ns) (m ∷ ms)
    → is_done (after sent m) ≡ false
    → (n' : ℕ) × (n ≡ n' + 1) × Budgeted (ns ++ n' ∷ []) (ms ++ after sent m ∷ [])
left_over sent zero m ns ms b e = absurd (omega (arith, b.0))
left_over sent (suc zero) m ns ms b e = absurd (
    cc (
      IsSettled-is_done (after sent m) (after-IsValid sent m b.1) (after-IsSettled sent m b.1 b.2),
      e,
    ))
left_over sent (suc (suc n)) m ns ms b e = (
  suc n,
  omega arith,
  append-Budgeted ns ms (suc n) (after sent m) b.3 (omega arith) (after-IsValid sent m b.1) (
      after-Within sent m b.1 (suc n) (λ k p f g.
        ap (λ i. reached (or_zero (get m.retry_map k) + i) p.number_of_retries) (omega arith)
        ∙ b.2 k p f g)),
)

Drained-done :
    (c : ℕ) (r : Report) (reports : List Report) (q : Queue)
    → r.done ≡ true
    → IsSettled r.msg
    → Drained c reports q
    → Drained (suc c) (r ∷ reports) q
unfolding done_msgs AllSettled
Drained-done c r reports q e s d = record {
  empty = d.empty;
  all = rw e (omega (arith, d.all));
  settled = rw e (s, d.settled);
}

Drained-requeued :
    (c : ℕ) (r : Report) (reports : List Report) (q : Queue)
    → r.done ≡ false
    → Drained c reports q
    → Drained c (r ∷ reports) q
unfolding done_msgs
Drained-requeued c r reports q e d = record {
  empty = d.empty;
  all = rw e d.all;
  settled = rw e d.settled;
}

-- If the messages of a worker's queue are valid, and the message in place i needs at most ns[i]
-- passes until each of its pending subscribers is out of attempts, then a worker that is not stopped
-- and whose acks are accepted empties its queue within as many passes as the numbers add up to,
-- whichever requests fail. It reports as many messages as done as there were, each of them with every
-- subscriber acked.
pub run-drains :
    (sents : List (SubPolicy → Bool)) (q : Queue) (ns : List ℕ) (ms : List QueueMsg)
    → Budgeted ns ms
    → Holds q.ring ms
    → sum ns ≤ length sents
    → (reports : List Report) × (q' : Queue) × (run (map accepting sents) q ≡ some (reports, q'))
      × Drained (length ms) reports q'
unfolding run done_msgs AllSettled
run-drains [] q [] [] b h le = ([], q, refl, record { empty = h; all = refl; settled = tt })
run-drains sents q (n ∷ ns) [] b h le = absurd b
run-drains sents q [] (m ∷ ms) b h le = absurd b
run-drains [] q (n ∷ ns) (m ∷ ms) b h le = absurd (omega (arith, b.0))
run-drains (sent ∷ sents) q [] [] b h le = (
  [],
  q,
  rw (pass_idle (accepting sent) q h) refl,
  record { empty = h; all = refl; settled = tt },
)
run-drains (sent ∷ sents) q (n ∷ ns) (m ∷ ms) b h le =
    let (r, passed, left, done, held) = pass_lem sent q m ms b.1 h in
    elim (Bool-cases (is_done (after sent m))) [
      | inl e ↦
          let (reports, last, ran, d) =
            run-drains sents r.queue ns ms b.3 (rw e at held) (omega (arith, b.0)) in
          let settled = is_done-IsSettled (after sent m) (after-IsValid sent m b.1) e in
          (
            r ∷ reports,
            last,
            rw (passed, ran) refl,
            Drained-done (length ms) r reports last (done ∙ e) (subst IsSettled (sym left) settled)
                d,
          )
      | inr e ↦
          let (n', same, b') = left_over sent n m ns ms b e in
          let (reports, last, ran, d) =
            run-drains sents r.queue (ns ++ n' ∷ []) (ms ++ after sent m ∷ []) b' (rw e at held)
              (omega (arith, sum-append ns n')) in
          let count : length (ms ++ after sent m ∷ []) ≡ suc (length ms) =
            omega (arith, length-append ms (after sent m ∷ [])) in
          (
            r ∷ reports,
            last,
            rw (passed, ran) refl,
            Drained-requeued (suc (length ms)) r reports last (done ∙ e)
                (subst (λ c. Drained c reports last) count d),
          )
    ]
