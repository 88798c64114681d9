-- ===== src/Ring/Pop.antt =====
-- `Pop` of the ring: the read at the head, and the copy of a sparse buffer into a smaller one.
use simon_mq.Base.{
  ℕ, suc, ◌+◌, ◌-◌, ◌*◌, ◌/◌, ◌%◌, max, ◌≤◌, ◌<◌, ◌≡◌, refl, ◌∙◌, ap, Option, none, some, List, [],
  ◌∷◌, arith, length, get_elem?, replicate, length-replicate, leb→le, leb, Bool-cases, inl, inr,
}
use native.Mathlib.Nat.{mod-eq_of_lt, mod-add-mod}
use simon_mq.Ring.{Ring, initial_capacity, compact, advance, pop}
use simon_mq.Ring.Valid.{IsTight, SlotsHold, Live, Holds, copy_over-Holds}

shift : (h i : ℕ) → h + 1 + (0 + i) ≡ h + (1 + i)
shift h i = omega arith

head_index : (h n : ℕ) → h < n → h ≡ (h + (0 + 0)) % n
head_index h n lt = omega (arith, mod-eq_of_lt {n = h} {m = n} lt, plus_zero h)
  where
    plus_zero : (h : ℕ) → (h + (0 + 0)) % n ≡ h % n
    plus_zero h = ap (λ k. k % n) (omega arith)

module _ {ℓ} {A : Type ℓ} where
  -- What `Pop` needs to know of a ring whose head it has read: the messages `xs` stand behind it.
  pub record Behind (q : Ring A) (xs : List A) : Type ℓ where
    pub head_in : q.head < length q.buf
    pub roomy : initial_capacity ≤ length q.buf
    pub within : q.count ≤ length q.buf
    pub counted : q.count ≡ suc (length xs)
    pub slots : SlotsHold q.buf q.head 1 xs
    pub loose : IsTight q

  moved-SlotsHold :
      (buf : List (Option A)) (h : ℕ) (xs : List A)
      → SlotsHold buf h 1 xs
      → SlotsHold buf ((h + 1) % length buf) 0 xs
  moved-SlotsHold buf h xs held i x e =
      ap (get_elem? buf)
        (mod-add-mod (h + 1) (length buf) (0 + i) ∙ ap (λ k. k % length buf) (shift h i))
      ∙ held i x e

  advanced-Live :
      (q : Ring A) (xs : List A)
      → Behind q xs
      → Live (record q { head = (q.head + 1) % length q.buf; count = q.count - 1 }) xs
  advanced-Live q xs b = record {
    head_in = omega (arith, b.roomy);
    roomy = b.roomy;
    within = omega (arith, b.within);
    counted = omega (arith, b.counted);
    slots = moved-SlotsHold q.buf q.head xs b.slots;
  }

  pub advance_lem :
      (q : Ring A) (xs : List A) → Behind q xs → (q' : Ring A) × (advance q ≡ some q') × Holds q' xs
  unfolding advance compact
  advance_lem q xs b =
      let q1 : Ring A = record q { head = (q.head + 1) % length q.buf; count = q.count - 1 } in
      let l : Live q1 xs = advanced-Live q xs b in
      elim (Bool-cases (leb (q1.count * 4) (length q.buf))) [
        | inl sparse ↦
            let (q', made, h) =
              copy_over-Holds q1 (replicate (max (length q.buf / 2) initial_capacity) none) xs l
                (omega (
                  arith,
                  l.roomy,
                  leb→le (q1.count * 4) (length q.buf) sparse,
                  length-replicate {A = Option A} (max (length q.buf / 2) initial_capacity) none,
                ))
                (omega (
                  arith,
                  length-replicate {A = Option A} (max (length q.buf / 2) initial_capacity) none,
                ))
                (omega (
                  arith,
                  b.loose,
                  b.counted,
                  length-replicate {A = Option A} (max (length q.buf / 2) initial_capacity) none,
                )) in
            (q', rw sparse made, h)
        | inr dense ↦ (
          q1,
          rw dense,
          record { live = l; slack = omega (arith, b.counted, b.within); tight = ground arith },
        )
      ]

  pub head_slot :
      (q : Ring A) (x : A) (xs : List A) → Live q (x ∷ xs) → get_elem? q.buf q.head ≡ some (some x)
  head_slot q x xs l =
      ap (get_elem? q.buf) (head_index q.head (length q.buf) l.head_in) ∙ l.slots 0 x refl

  pub Holds-Behind : (q : Ring A) (x : A) (xs : List A) → Holds q (x ∷ xs) → Behind q xs
  Holds-Behind q x xs h = record {
    head_in = h.live.head_in;
    roomy = h.live.roomy;
    within = h.live.within;
    counted = h.live.counted;
    slots = λ i y e.
        ap (λ k. get_elem? q.buf ((q.head + k) % length q.buf)) (omega arith)
        ∙ h.live.slots (suc i) y e;
    loose = h.tight;
  }

  -- `Pop` panics nowhere, returns the oldest message, and leaves the ring holding the rest.
  pub pop_lem :
      (q : Ring A) (x : A) (xs : List A)
      → Holds q (x ∷ xs)
      → (q' : Ring A) × (pop q ≡ some (some x, q')) × Holds q' xs
  unfolding pop
  pop_lem q x xs h =
      let (q', moved, rest) = advance_lem q xs (Holds-Behind q x xs h) in
      (q', ground (arith, h.live.counted, head_slot q x xs h.live, moved), rest)

  pub pop_empty : (q : Ring A) → Holds q [] → pop q ≡ some (none, q)
  unfolding pop
  pop_empty q h = ground (arith, h.live.counted)
