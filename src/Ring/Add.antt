-- ===== src/Ring/Add.antt =====
-- `Add` of the ring: the write behind the last message, and the growth of a full buffer.
use simon_mq.Base.{
  ℕ, ◌+◌, ◌%◌, ◌<◌, ◌≡◌, refl, sym, true, ◌∙◌, ap, some, List, [], ◌∷◌, ◌++◌, arith, length,
  get_elem?, set, length-append, length-set, get_elem?-lt, get_elem?-set_self, get_elem?-set_ne,
  get_elem?-append_left, get_elem?-append_last, lt→ltb, ltb→lt, ltb_false→le, ltb, Bool-cases, inl,
  inr,
}
use simon_mq.Ring.{Ring, write_tail, add}
use simon_mq.Ring.Slots.{wrap_ne}
use simon_mq.Ring.Valid.{SlotsHold, Live, Holds, grow_if_full_lem}

module _ {ℓ} {A : Type ℓ} where
  module _ (q : Ring A) (xs : List A) (x : A) (h : Holds q xs) where
    abbrev tail_slot : ℕ
    tail_slot = (q.head + q.count) % length q.buf

    old_slot :
        (i : ℕ) (y : A)
        → i < length xs
        → get_elem? (xs ++ x ∷ []) i ≡ some y
        → get_elem? (set q.buf tail_slot (some x)) ((q.head + (0 + i)) % length q.buf)
          ≡ some (some y)
    old_slot i y low e =
        get_elem?-set_ne q.buf tail_slot ((q.head + (0 + i)) % length q.buf) (some x) (λ same.
          wrap_ne q.head i q.count (length q.buf) h.live.head_in (omega (arith, h.live.counted))
            h.slack (ap (λ k. (q.head + k) % length q.buf) (omega arith) ∙ sym same))
        ∙ h.live.slots i y (sym (get_elem?-append_left xs (x ∷ []) i low) ∙ e)

    -- The free slot after the last message is the one that `Add` writes.
    new_slot :
        (i : ℕ) (y : A)
        → i ≡ length xs
        → get_elem? (xs ++ x ∷ []) i ≡ some y
        → get_elem? (set q.buf tail_slot (some x)) ((q.head + (0 + i)) % length q.buf)
          ≡ some (some y)
    new_slot i y last e =
        ap (λ k. get_elem? (set q.buf tail_slot (some x)) ((q.head + k) % length q.buf))
          (omega (arith, last, h.live.counted))
        ∙ (get_elem?-set_self q.buf tail_slot (some x) (omega (arith, h.slack))
            ∙ ap some (ap some (get_elem?-append_last xs x y i last e)))

    written-SlotsHold : SlotsHold (set q.buf tail_slot (some x)) q.head 0 (xs ++ x ∷ [])
    written-SlotsHold i y e =
        rw (length-set q.buf tail_slot (some x)) (elim (Bool-cases (ltb i (length xs))) [
          | inl low ↦ old_slot i y (ltb→lt i (length xs) low) e
          | inr high ↦
              new_slot i y
                (omega (
                  arith,
                  ltb_false→le i (length xs) high,
                  get_elem?-lt (xs ++ x ∷ []) i y e,
                  length-append xs (x ∷ []),
                ))
                e
        ])

    pub write_tail_lem : (q' : Ring A) × (write_tail q x ≡ some q') × Live q' (xs ++ x ∷ [])
    unfolding write_tail
    write_tail_lem = (
      record q { buf = set q.buf tail_slot (some x); count = q.count + 1 },
      rw (lt→ltb tail_slot (length q.buf) (omega (arith, h.slack))),
      record {
        head_in = omega (arith, h.live.head_in, length-set q.buf tail_slot (some x));
        roomy = omega (arith, h.live.roomy, length-set q.buf tail_slot (some x));
        within = omega (arith, h.slack, length-set q.buf tail_slot (some x));
        counted = omega (arith, h.live.counted, length-append xs (x ∷ []));
        slots = written-SlotsHold;
      },
    )

    -- `Add` panics nowhere, and leaves the ring holding the message behind the others.
    pub add_lem :
        (q' : Ring A) × (add q x ≡ some q') × Holds q' (xs ++ x ∷ []) × (q'.has_work ≡ true)
    unfolding add write_tail_lem
    add_lem =
        let (q1, wrote, l) = write_tail_lem in
        let (q2, grew, h2) =
          grow_if_full_lem q1 (xs ++ x ∷ []) l
            (omega (arith, h.tight, length-set q.buf tail_slot (some x))) in
        (
          record q2 { has_work = true },
          rw (wrote, grew),
          record {
            live = record {
              head_in = h2.live.head_in;
              roomy = h2.live.roomy;
              within = h2.live.within;
              counted = h2.live.counted;
              slots = h2.live.slots;
            };
            slack = h2.slack;
            tight = h2.tight;
          },
          refl,
        )
