-- ===== src/Durable/Wal/Scan/Corrupt.antt =====
-- A tail whose length field is too small for a record takes the scan down.
use simon_mq.Base.{
  ℕ, zero, suc, ◌+◌, ◌≤◌, ◌<◌, ◌≡◌, ◌∙◌, sym, ap, inl, inr, some, List, [], ◌∷◌, ◌++◌, length, take,
  drop, arith, length-append, length-take_le, length-drop, drop-append_le, take-length, take-append,
  le→leb, Option-cases, from_le, get_elem?, ltb_of_le,
}
use mathlib.Core.List.{append_assoc}
use simon_mq.Durable.Record.{Record, encode, panicked, decode, sub_slice}
use simon_mq.Durable.Wal.Scan.{
  max_log_length, read_full, crash, round, crashed, scan_loop, scan_segment,
}
use simon_mq.Durable.Wal.Scan.Recover.{
  read_full-append, Writable, All, file_of, length-encode, round-encode,
}

-- `Decode` of a record whose length leaves no room for the fixed fields.
decode-panics :
    (bs : List ℕ) (size : ℕ)
    → length bs ≡ size + 12
    → from_le (sub_slice bs 8 12) ≡ size
    → size < 9
    → decode bs ≡ panicked
unfolding decode
decode-panics bs size l e small = elim (Option-cases (get_elem? bs 12)) [
  | inl absent ↦ ground (arith, l, e, absent)
  | inr (op, present) ↦ ground (arith, l, e, present)
]

-- The length field of a header does not depend on what follows.
length_field : (h bs : List ℕ) → length h ≡ 12 → sub_slice (h ++ bs) 8 12 ≡ sub_slice h 8 12
length_field h bs e =
    ap (take 4) (drop-append_le 8 h bs (omega (arith, e)))
    ∙ (take-append 4 (drop 8 h) bs (omega (arith, e, length-drop 8 h))
        ∙ sym (take-length 4 (drop 8 h) (omega (arith, e, length-drop 8 h))))

round-small :
    (h tail : List ℕ)
    → length h ≡ 12
    → from_le (sub_slice h 8 12) < 9
    → from_le (sub_slice h 8 12) ≤ length tail
    → round (h ++ tail) ≡ crash
unfolding round
round-small h tail e small room =
    rw
      (
        read_full-append 12 h tail e,
        ltb_of_le max_log_length (from_le (sub_slice h 8 12)) (omega (arith, small)),
      )
      (unfold read_full in
        rw (
          le→leb (from_le (sub_slice h 8 12)) (length tail) room,
          decode-panics (h ++ take (from_le (sub_slice h 8 12)) tail) (from_le (sub_slice h 8 12))
              (omega (
                arith,
                e,
                length-append {0},
                length-take_le (from_le (sub_slice h 8 12)) tail room,
              ))
              (ap from_le (length_field h (take (from_le (sub_slice h 8 12)) tail) e)) small,
        ))

scan_loop-crash :
    (fuel : ℕ) (rs : List Record) (torn : List ℕ)
    → All Writable rs
    → length (file_of rs ++ torn) < fuel
    → round torn ≡ crash
    → scan_loop fuel (file_of rs ++ torn) ≡ some crashed
unfolding scan_loop file_of All
scan_loop-crash zero rs torn w enough t = absurd (omega arith)
scan_loop-crash (suc fuel) [] torn w enough t = rw (t, scan_loop)
scan_loop-crash (suc fuel) (r ∷ rs) torn w enough t =
    rw
      (
        append_assoc (encode r) (file_of rs) torn,
        round-encode r (file_of rs ++ torn) w.0,
        scan_loop,
      )
      (rw (
        scan_loop-crash fuel rs torn w.1 (omega (arith, enough, length-encode r, length-append {0}))
          t))

-- A tail that is not a torn record takes recovery down instead of ending it: behind any records, a
-- header whose length field is below nine and whose bytes are there, such as twelve zeros, makes
-- `Decode` panic inside the scan, before any checksum is looked at.
pub small_length_crashes :
    (rs : List Record) (h tail : List ℕ)
    → All Writable rs
    → length h ≡ 12
    → from_le (sub_slice h 8 12) < 9
    → from_le (sub_slice h 8 12) ≤ length tail
    → scan_segment (file_of rs ++ (h ++ tail)) ≡ some crashed
unfolding scan_segment
small_length_crashes rs h tail w e small room =
    scan_loop-crash (suc (length (file_of rs ++ (h ++ tail)))) rs (h ++ tail) w (omega arith)
      (round-small h tail e small room)
