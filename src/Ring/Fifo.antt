-- ===== src/Ring/Fifo.antt =====
-- The ring as a queue: no client can tell it from the list of its messages.
use simon_mq.Base.{
  ◌≡◌, refl, Option, none, some, List, [], ◌∷◌, ◌++◌, ◌>>=◌, max, ◌*◌, ◌+◌, ◌≤◌, length,
}
use simon_mq.Ring.{Ring, initial_capacity, new_ring, add, pop}
use simon_mq.Ring.Valid.{IsTight, Holds, new_ring-Holds}
use simon_mq.Ring.Add.{add_lem}
use simon_mq.Ring.Pop.{pop_lem, pop_empty}

-- The calls of a client.
pub data Op {ℓ} (A : Type ℓ) : Type ℓ where
  put : A → Op A
  get : Op A

module _ {ℓ} {A : Type ℓ} where
  -- The calls in turn, with what each `Pop` returns.
  pub run : Ring A → List (Op A) → Option (List (Option A))
  run q [] = some []
  run q (put x ∷ ops) = do q' ← add q x; run q' ops
  run q (get ∷ ops) = do (msg, q') ← pop q; rest ← run q' ops; some (msg ∷ rest)

  -- The same calls on an unbounded queue of messages.
  unfoldable pub run_fifo : List A → List (Op A) → List (Option A)
  run_fifo xs [] = []
  run_fifo xs (put x ∷ ops) = run_fifo (xs ++ x ∷ []) ops
  run_fifo [] (get ∷ ops) = none ∷ run_fifo [] ops
  run_fifo (x ∷ xs) (get ∷ ops) = some x ∷ run_fifo xs ops

  pub run-Holds :
      (q : Ring A) (xs : List A) (ops : List (Op A))
      → Holds q xs
      → run q ops ≡ some (run_fifo xs ops)
  unfolding run run_fifo
  run-Holds q xs [] h = refl
  run-Holds q xs (put x ∷ ops) h =
      let (q', added, h', _) = add_lem q xs x h in rw added (run-Holds q' (xs ++ x ∷ []) ops h')
  run-Holds q [] (get ∷ ops) h = rw (pop_empty q h, run-Holds q [] ops h)
  run-Holds q (x ∷ xs) (get ∷ ops) h =
      let (q', popped, h') = pop_lem q x xs h in rw (popped, run-Holds q' xs ops h')

  -- A ring made by `NewQueue` never panics, whatever the calls of `Add` and `Pop` that follow, and
  -- its replies are those of an unbounded first-in first-out queue: nothing is lost, repeated or
  -- reordered when the buffer wraps round, grows or shrinks.
  pub ring_refines_fifo : (ops : List (Op A)) → run new_ring ops ≡ some (run_fifo [] ops)
  ring_refines_fifo ops = run-Holds new_ring [] ops new_ring-Holds

module _ {ℓ} {A : Type ℓ} where
  -- The ring after the calls.
  pub run_to : Ring A → List (Op A) → Option (Ring A)
  run_to q [] = some q
  run_to q (put x ∷ ops) = do q' ← add q x; run_to q' ops
  run_to q (get ∷ ops) = do (_, q') ← pop q; run_to q' ops

  run_to-IsTight :
      (q : Ring A) (xs : List A) (ops : List (Op A))
      → Holds q xs
      → (q' : Ring A) × (run_to q ops ≡ some q') × IsTight q'
  unfolding run_to
  run_to-IsTight q xs [] h = (q, refl, h.tight)
  run_to-IsTight q xs (put x ∷ ops) h =
      let (q', added, h', _) = add_lem q xs x h in
      let (r, ran, t) = run_to-IsTight q' (xs ++ x ∷ []) ops h' in (r, rw added ran, t)
  run_to-IsTight q [] (get ∷ ops) h =
      let (r, ran, t) = run_to-IsTight q [] ops h in (r, rw (pop_empty q h) ran, t)
  run_to-IsTight q (x ∷ xs) (get ∷ ops) h =
      let (q', popped, h') = pop_lem q x xs h in
      let (r, ran, t) = run_to-IsTight q' xs ops h' in (r, rw popped ran, t)

  -- After any calls of `Add` and `Pop` on a ring made by `NewQueue`, none of which panics, the
  -- buffer has the initial ten slots or fewer, or at most four slots for each message held and four
  -- more: memory follows the backlog down as well as up.
  pub capacity_follows_count :
      (ops : List (Op A))
      → (q : Ring A) × (run_to new_ring ops ≡ some q)
        × (length q.buf ≤ max initial_capacity (4 * q.count + 4))
  capacity_follows_count ops = run_to-IsTight new_ring [] ops new_ring-Holds
