-- ===== src/Ring/Valid.antt =====
-- The live messages of a ring, oldest first, and the operations on them.
use simon_mq.Base.{
  ℕ, ◌+◌, ◌*◌, ◌%◌, max, ◌≤◌, ◌<◌, ◌≡◌, refl, ◌∙◌, ap, Option, none, some, List, [], arith, length,
  get_elem?, replicate, length-replicate, get_elem?-lt, leb→le, leb, Bool-cases, inl, inr,
}
use native.Mathlib.Nat.{mod-eq_of_lt}
use simon_mq.Ring.{Ring, initial_capacity, copy_over, grow, grow_if_full, new_ring}
use simon_mq.Ring.Slots.{copy_over_lem}

module _ {ℓ} {A : Type ℓ} where
  -- The messages `xs` stand from slot `h + k` on, going round at the end of the buffer.
  abbrev pub SlotsHold : List (Option A) → ℕ → ℕ → List A → Type ℓ
  SlotsHold buf h k xs =
      (i : ℕ) (x : A)
      → get_elem? xs i ≡ some x
      → get_elem? buf ((h + (k + i)) % length buf) ≡ some (some x)

  -- The ring holds `xs`; it may be full.
  pub record Live (q : Ring A) (xs : List A) : Type ℓ where
    pub head_in : q.head < length q.buf
    pub roomy : initial_capacity ≤ length q.buf
    pub within : q.count ≤ length q.buf
    pub counted : q.count ≡ length xs
    pub slots : SlotsHold q.buf q.head 0 xs

  -- The buffer has at most four slots for each message and one more, or it is the smallest.
  abbrev pub IsTight : Ring A → Type 0
  IsTight q = length q.buf ≤ max initial_capacity (4 * q.count + 4)

  -- Between two calls there is a free slot.
  pub record Holds (q : Ring A) (xs : List A) : Type ℓ where
    pub live : Live q xs
    pub slack : q.count < length q.buf
    pub tight : IsTight q

  pub new_ring-Holds : Holds (new_ring {A = A}) []
  new_ring-Holds = record {
    live = record {
      head_in = omega arith;
      roomy = omega arith;
      within = omega arith;
      counted = refl;
      slots = λ i x e. absurd (cc);
    };
    slack = omega arith;
    tight = omega arith;
  }

  copied-SlotsHold :
      (q : Ring A) (out : List (Option A)) (xs : List A)
      → Live q xs
      → q.count < length out
      → ((i : ℕ) → i < q.count → get_elem? out i ≡ get_elem? q.buf ((q.head + i) % length q.buf))
      → SlotsHold out 0 0 xs
  copied-SlotsHold q out xs l room same i x e =
      ap (get_elem? out) (
        omega (
          arith,
          mod-eq_of_lt {n = 0 + (0 + i)} {m = length out}
              (omega (arith, l.counted, get_elem?-lt xs i x e)),
        ))
      ∙ (same i (omega (arith, l.counted, get_elem?-lt xs i x e))
          ∙ (ap (λ k. get_elem? q.buf ((q.head + k) % length q.buf)) (omega arith) ∙ l.slots i x e))

  -- A copy into a larger buffer keeps the messages.
  pub copy_over-Holds :
      (q : Ring A) (new_buf : List (Option A)) (xs : List A)
      → Live q xs
      → q.count < length new_buf
      → initial_capacity ≤ length new_buf
      → length new_buf ≤ max initial_capacity (4 * q.count + 4)
      → (q' : Ring A) × (copy_over q new_buf ≡ some q') × Holds q' xs
  copy_over-Holds q new_buf xs l room large small =
      let (out, made, copied) = copy_over_lem q new_buf l.head_in l.within (omega arith) in
      (
        record q { buf = out; head = 0 },
        made,
        record {
          live = record {
            head_in = omega (arith, copied.same_length);
            roomy = omega (arith, copied.same_length);
            within = omega (arith, copied.same_length);
            counted = l.counted;
            slots = copied-SlotsHold q out xs l (omega (arith, copied.same_length)) copied.at_slot;
          };
          slack = omega (arith, copied.same_length);
          tight = omega (arith, copied.same_length);
        },
      )

  pub grow_if_full_lem :
      (q : Ring A) (xs : List A)
      → Live q xs
      → IsTight q
      → (q' : Ring A) × (grow_if_full q ≡ some q') × Holds q' xs
  unfolding grow_if_full grow
  grow_if_full_lem q xs l t = elim (Bool-cases (leb (length q.buf) q.count)) [
    | inl full ↦
        let (q', made, h) =
          copy_over-Holds q (replicate (length q.buf * 2) none) xs l
            (omega
              (arith, l.roomy, l.within, length-replicate {A = Option A} (length q.buf * 2) none))
            (omega (arith, l.roomy, length-replicate {A = Option A} (length q.buf * 2) none))
            (omega (
              arith,
              leb→le (length q.buf) q.count full,
              length-replicate {A = Option A} (length q.buf * 2) none,
            )) in
        (q', rw full made, h)
    | inr free ↦ (q, rw free, record { live = l; slack = ground arith; tight = t })
  ]
