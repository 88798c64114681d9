-- ===== src/Ring/Slots.antt =====
-- The slots of the ring: where an index goes, and what the copy into a new buffer leaves there.
use simon_mq.Base.{
  ℕ, ◌+◌, ◌-◌, ◌%◌, ◌≤◌, ◌<◌, ◌≡◌, ◌≢◌, ◌∙◌, ap, sym, Option, some, List, arith, length, get_elem?,
  copy, take, drop, ◌++◌, length-copy, length-drop, length-take_le, length-append, get_elem?-copy,
  get_elem?-drop, get_elem?-take, get_elem?-append_left, get_elem?-append_at, ltb, le→leb, ltb→lt,
  lt→ltb, Bool-cases, inl, inr,
}
use native.Mathlib.Nat.{mod-eq_of_lt, mod-eq-sub-mod}
use simon_mq.Ring.{Ring, copy_wrapped, copy_over}

-- An index past the end comes back to the front.
pub wrap_low : (h i n : ℕ) → h + i < n → (h + i) % n ≡ h + i
wrap_low h i n lt = mod-eq_of_lt lt

pub wrap_high : (h i n : ℕ) → h < n → i ≤ n → n ≤ h + i → (h + i) % n ≡ h + i - n
wrap_high h i n hn i_n le = elim (Bool-cases (ltb (h + i - n) n)) [
  | inl p ↦ omega (
    arith,
    mod-eq-sub-mod {n = h + i} {m = n} le,
    mod-eq_of_lt {n = h + i - n} {m = n} (ground arith),
  )
  | inr p ↦ absurd (ground arith)
]

-- Two live slots of a ring that is not full are different.
pub wrap_ne : (h i c n : ℕ) → h < n → i < c → c < n → (h + i) % n ≢ (h + c) % n
wrap_ne h i c n hn ic cn e = elim (Bool-cases (ltb (h + c) n)) [
  | inl low ↦ ground (arith, wrap_low h i n (ground arith), wrap_low h c n (ground arith))
  | inr high ↦ elim (Bool-cases (ltb (h + i) n)) [
    | inl p ↦
        ground
          (arith, wrap_low h i n (ground arith), wrap_high h c n hn (omega arith) (ground arith))
    | inr p ↦ ground (
      arith,
      wrap_high h i n hn (omega arith) (ground arith),
      wrap_high h c n hn (omega arith) (ground arith),
    )
  ]
]

module _ {ℓ} {A : Type ℓ} where
  -- The new buffer has room for the live slots: then the copy panics nowhere, keeps the length,
  -- and has the old slot `h + i` at `i`.
  pub record Copied (new_buf buf : List (Option A)) (h c : ℕ) (out : List (Option A)) : Type ℓ where
    pub same_length : length out ≡ length new_buf
    pub at_slot : (i : ℕ) → i < c → get_elem? out i ≡ get_elem? buf ((h + i) % length buf)

  module _ (new_buf buf : List (Option A)) (h c : ℕ) (h_in : h < length buf) (c_in : c ≤ length buf)
      (fits : c ≤ length new_buf) where
    length_tail : length (drop h buf) ≡ length buf - h
    length_tail = length-drop h buf

    -- An index below the copied tail.
    at_tail :
        (i : ℕ)
        → i < c
        → i < length (drop h buf)
        → get_elem? (copy new_buf (drop h buf)) i ≡ get_elem? buf ((h + i) % length buf)
    at_tail i lt low =
        get_elem?-copy new_buf (drop h buf) i (omega arith) low
        ∙ (get_elem?-drop buf h i
            ∙ ap (get_elem? buf) (sym (wrap_low h i (length buf) (omega (arith, length_tail)))))

    abbrev tail_copy : List (Option A)
    tail_copy = copy new_buf (drop h buf)

    -- The buffer that `copyOver` builds where the live slots wrap round.
    abbrev wrapped_copy : List (Option A)
    wrapped_copy =
        take (length (drop h buf)) tail_copy
        ++ copy (drop (length (drop h buf)) tail_copy) (take (c - length (drop h buf)) buf)

    unwrapped-Copied : c ≤ length (drop h buf) → Copied new_buf buf h c tail_copy
    unwrapped-Copied short = record {
      same_length = length-copy new_buf (drop h buf);
      at_slot = λ i lt. at_tail i lt (omega arith);
    }

    module _ (long : length (drop h buf) < c) where
      length_front : length (take (length (drop h buf)) tail_copy) ≡ length (drop h buf)
      length_front =
          length-take_le (length (drop h buf)) tail_copy
            (omega (arith, length-copy new_buf (drop h buf)))

      length-wrapped_copy : length wrapped_copy ≡ length new_buf
      length-wrapped_copy = omega (
        arith,
        length_front,
        length-append (take (length (drop h buf)) tail_copy)
            (copy (drop (length (drop h buf)) tail_copy) (take (c - length (drop h buf)) buf)),
        length-copy (drop (length (drop h buf)) tail_copy) (take (c - length (drop h buf)) buf),
        length-drop (length (drop h buf)) tail_copy,
        length-copy new_buf (drop h buf),
      )

      front_slot :
          (i : ℕ)
          → i < c
          → i < length (drop h buf)
          → get_elem? wrapped_copy i ≡ get_elem? buf ((h + i) % length buf)
      front_slot i lt low =
          get_elem?-append_left (take (length (drop h buf)) tail_copy) _ i
            (omega (arith, length_front))
          ∙ (get_elem?-take tail_copy (length (drop h buf)) i low ∙ at_tail i lt low)

      -- A slot past the tail is one from the front of the old buffer.
      back_slot :
          (i : ℕ)
          → i < c
          → length (drop h buf) ≤ i
          → get_elem? wrapped_copy i ≡ get_elem? buf (i - length (drop h buf))
      back_slot i lt high =
          get_elem?-append_at (take (length (drop h buf)) tail_copy) _ (length (drop h buf)) i
            length_front high
          ∙ (get_elem?-copy (drop (length (drop h buf)) tail_copy)
                (take (c - length (drop h buf)) buf) (i - length (drop h buf))
                (omega (
                  arith,
                  length-drop (length (drop h buf)) tail_copy,
                  length-copy new_buf (drop h buf),
                ))
                (omega (arith, length-take_le (c - length (drop h buf)) buf (omega arith)))
              ∙ get_elem?-take buf (c - length (drop h buf)) (i - length (drop h buf))
                  (omega arith))

      back_index :
          (i : ℕ) → i < c → length (drop h buf) ≤ i → i - length (drop h buf) ≡ (h + i) % length buf
      back_index i lt high = omega (
        arith,
        length_tail,
        wrap_high h i (length buf) h_in (omega arith) (omega (arith, length_tail)),
      )

      wrapped-Copied : Copied new_buf buf h c wrapped_copy
      wrapped-Copied = record {
        same_length = length-wrapped_copy;
        at_slot = λ i lt. elim (Bool-cases (ltb i (length (drop h buf)))) [
          | inl low ↦ front_slot i lt (ground arith)
          | inr high ↦
              back_slot i lt (ground arith) ∙ ap (get_elem? buf) (back_index i lt (ground arith))
        ];
      }

    copy_wrapped_lem :
        (out : List (Option A)) × (copy_wrapped tail_copy buf
            (length (drop h buf))
            (c - length (drop h buf))
          ≡ some out)
        × Copied new_buf buf h c out
    unfolding copy_wrapped
    copy_wrapped_lem = elim (Bool-cases (ltb (length (drop h buf)) c)) [
      | inl long ↦ (
        wrapped_copy,
        rw (
          lt→ltb 0 (c - length (drop h buf)) (ground arith),
          le→leb (length (drop h buf)) (length tail_copy) (
              omega (arith, length-copy new_buf (drop h buf), ltb→lt (length (drop h buf)) c long)),
          le→leb (c - length (drop h buf)) (length buf) (omega arith),
        ),
        wrapped-Copied (ground arith),
      )
      | inr short ↦ (tail_copy, ground arith, unwrapped-Copied (ground arith))
    ]

  -- `copyOver` into a buffer with room for the live slots.
  pub copy_over_lem :
      (q : Ring A) (new_buf : List (Option A))
      → q.head < length q.buf
      → q.count ≤ length q.buf
      → q.count ≤ length new_buf
      → (out : List (Option A)) × (copy_over q new_buf ≡ some (record q { buf = out; head = 0 }))
        × Copied new_buf q.buf q.head q.count out
  unfolding copy_over
  copy_over_lem q new_buf h_in c_in fits =
      let (out, made, copied) = copy_wrapped_lem new_buf q.buf q.head q.count h_in c_in fits in
      (out, ground (arith, made), copied)
