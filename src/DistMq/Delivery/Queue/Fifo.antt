-- ===== src/DistMq/Delivery/Queue/Fifo.antt =====
-- dist-mq/delivery/queue.go: the ring that clears the slots it pops is a first-in first-out queue too.
use simon_mq.Base.{
  ◌+◌, ◌%◌, ◌≡◌, refl, ◌∙◌, ap, Option, none, some, List, [], ◌∷◌, ◌++◌, arith, length, set,
  length-set, get_elem?-set_ne, get_elem?-lt, lt→ltb, ◌>>=◌,
}
use native.Mathlib.Nat.{mod-eq_of_lt}
use simon_mq.Ring
use simon_mq.Ring.{Ring, new_ring}
use simon_mq.Ring.Slots.{wrap_ne}
use simon_mq.Ring.Valid.{Holds, new_ring-Holds}
use simon_mq.Ring.Add.{add_lem}
use simon_mq.Ring.Pop.{Behind, Holds-Behind, advance_lem, head_slot}
use simon_mq.Ring.Fifo.{Op, put, get, run_fifo}
use simon_mq.DistMq.Delivery.Queue.{pop_ring}

module _ {ℓ} {A : Type ℓ} where
  -- The cleared slot is not one of those behind the head.
  cleared-Behind :
      (q : Ring A) (x : A) (xs : List A)
      → Holds q (x ∷ xs)
      → Behind (record q { buf = set q.buf q.head none }) xs
  cleared-Behind q x xs h =
      let b = Holds-Behind q x xs h in
      record {
        head_in = omega (arith, h.live.head_in, length-set q.buf q.head none);
        roomy = omega (arith, h.live.roomy, length-set q.buf q.head none);
        within = omega (arith, h.live.within, length-set q.buf q.head none);
        counted = b.counted;
        slots = λ i y e. rw (length-set q.buf q.head none) (
            get_elem?-set_ne q.buf q.head ((q.head + (1 + i)) % length q.buf) none (λ same.
              wrap_ne q.head 0 (1 + i) (length q.buf) h.live.head_in (omega arith)
                (omega (arith, h.slack, h.live.counted, get_elem?-lt xs i y e))
                (ap (λ k. k % length q.buf) (omega arith)
                  ∙ mod-eq_of_lt {n = q.head} {m = length q.buf} h.live.head_in
                  ∙ same))
            ∙ b.slots i y e);
        loose = omega (arith, b.loose, length-set q.buf q.head none);
      }

  -- `Pop` panics nowhere, returns the oldest message, and leaves the rest.
  pub pop_ring_lem :
      (q : Ring A) (x : A) (xs : List A)
      → Holds q (x ∷ xs)
      → (q' : Ring A) × (pop_ring q ≡ some (some x, q')) × Holds q' xs
  unfolding pop_ring
  pop_ring_lem q x xs h =
      let (q', moved, rest) =
        advance_lem (record q { buf = set q.buf q.head none }) xs (cleared-Behind q x xs h) in
      (
        q',
        ground (
          arith,
          h.live.counted,
          head_slot q x xs h.live,
          moved,
          lt→ltb q.head (length q.buf) h.live.head_in,
        ),
        rest,
      )

  pub pop_ring_empty : (q : Ring A) → Holds q [] → pop_ring q ≡ some (none, q)
  unfolding pop_ring
  pop_ring_empty q h = ground (arith, h.live.counted)

  -- The calls in turn, with what each `Pop` returns.
  unfoldable pub run : Ring A → List (Op A) → Option (List (Option A))
  run q [] = some []
  run q (put x ∷ ops) = do q' ← Ring.add q x; run q' ops
  run q (get ∷ ops) = do (msg, q') ← pop_ring q; rest ← run q' ops; some (msg ∷ rest)

  run-Holds :
      (q : Ring A) (xs : List A) (ops : List (Op A))
      → Holds q xs
      → run q ops ≡ some (run_fifo xs ops)
  unfolding run run_fifo
  run-Holds q xs [] h = refl
  run-Holds q xs (put x ∷ ops) h =
      let (q', added, h', woken) = add_lem q xs x h in rw added (run-Holds q' (xs ++ x ∷ []) ops h')
  run-Holds q [] (get ∷ ops) h = rw (pop_ring_empty q h, run-Holds q [] ops h) refl
  run-Holds q (x ∷ xs) (get ∷ ops) h =
      let (q', popped, h') = pop_ring_lem q x xs h in rw (popped, run-Holds q' xs ops h') refl

  -- The queue of a worker never panics and answers as an unbounded first-in first-out queue does,
  -- though it clears the slot of each message that it pops.
  pub cleared_ring_refines_fifo : (ops : List (Op A)) → run new_ring ops ≡ some (run_fifo [] ops)
  cleared_ring_refines_fifo ops = run-Holds new_ring [] ops new_ring-Holds
