-- ===== src/Ring.antt =====
-- The growing ring buffer of durable-mq/queue/queue.go. The same text stands in simple-mq-2/queue.go
-- and push-mq/queue.go, and with a cleared slot in dist-mq/delivery/queue.go.
-- `none` is a Go panic: an index or a slice bound out of range, a division by zero, or the
-- explicit panic of `copyOver`.
pub mod Slots
pub mod Valid
pub mod Add
pub mod Pop
pub mod Fifo
use simon_mq.Base.{
  ℕ, ◌+◌, ◌-◌, ◌*◌, ◌/◌, ◌%◌, max, Bool, true, false, Option, none, some, List, length, get_elem?,
  store, replicate, copy, take, drop, slice_from, slice_to, ltb, leb, ◌==◌, ◌++◌, if◌then◌else◌,
  ◌>>=◌,
}

abbrev pub initial_capacity : ℕ
initial_capacity = 10

-- A slot is a pointer, `none` where it is nil.
pub record Ring {ℓ} (A : Type ℓ) : Type ℓ where
  pub count : ℕ
  pub head : ℕ
  pub buf : List (Option A)
  pub has_work : Bool

abbrev pub new_ring {ℓ} : {A : Type ℓ} → Ring A
new_ring = record { count = 0; head = 0; buf = replicate initial_capacity none; has_work = false }

module _ {ℓ} {A : Type ℓ} where
  -- The copy of the slots from the front of the buffer, where they wrap round.
  unfoldable pub copy_wrapped : List (Option A) → List (Option A) → ℕ → ℕ → Option (List (Option A))
  copy_wrapped new_buf buf copied remaining =
      if ltb 0 remaining
      then (do
        rest ← slice_from new_buf copied
        front ← slice_to buf remaining
        some (take copied new_buf ++ copy rest front))
      else some new_buf

  unfoldable pub copy_over : Ring A → List (Option A) → Option (Ring A)
  copy_over q new_buf = if ltb (length new_buf) q.count then none else do
    tail ← slice_from q.buf q.head
    copied ← copy_wrapped (copy new_buf tail) q.buf (length tail) (q.count - length tail)
    some (record q { buf = copied; head = 0 })

  unfoldable pub grow : Ring A → Option (Ring A)
  grow q = copy_over q (replicate (length q.buf * 2) none)

  unfoldable pub compact : Ring A → Option (Ring A)
  compact q = copy_over q (replicate (max (length q.buf / 2) initial_capacity) none)

  -- The write before the capacity test. `i % 0` is `i` here, and then the index is out of range.
  unfoldable pub write_tail : Ring A → A → Option (Ring A)
  write_tail q msg = do
    written ← store q.buf ((q.head + q.count) % length q.buf) (some msg)
    some (record q { buf = written; count = q.count + 1 })

  unfoldable pub grow_if_full : Ring A → Option (Ring A)
  grow_if_full q = if leb (length q.buf) q.count then grow q else some q

  -- The send on the buffered channel leaves one token in it, whether or not there was one.
  unfoldable pub add : Ring A → A → Option (Ring A)
  add q msg = do
    written ← write_tail q msg
    grown ← grow_if_full written
    some (record grown { has_work = true })

  -- The head moves on, and the buffer shrinks when at most a quarter of it is in use.
  unfoldable pub advance : Ring A → Option (Ring A)
  advance q =
      let q' : Ring A = record q { head = (q.head + 1) % length q.buf; count = q.count - 1 } in
      if leb (q'.count * 4) (length q'.buf) then compact q' else some q'

  -- The message is nil where the queue is empty.
  unfoldable pub pop : Ring A → Option (Option A × Ring A)
  pop q =
      if q.count == 0
      then some (none, q)
      else do msg ← get_elem? q.buf q.head; rest ← advance q; some (msg, rest)
