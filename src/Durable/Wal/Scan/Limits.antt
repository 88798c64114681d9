-- ===== src/Durable/Wal/Scan/Limits.antt =====
-- The scan ends, and what it does with a record above the limit and with a tail of zeros.
use simon_mq.Base.{
  ℕ, zero, suc, ◌+◌, ◌≤◌, ◌<◌, ◌≡◌, refl, ◌≢◌, ap, inl, inr, Option, none, some, List, ◌++◌, length,
  take, drop, arith, length-drop, ltb, lt→ltb, leb, leb→le, Bool-cases, ◌⊎◌, from_le,
}
use mathlib.Core.List.{append_assoc}
use simon_mq.Durable.Record.{
  Record, remaining_length, encode, Decoded, decoded, too_short, invalid_crc, panicked, decode,
  sub_slice,
}
use simon_mq.Durable.Record.RoundTrip.{Fits}
use simon_mq.Durable.Wal.Scan.{
  max_log_length, full, read_full, Round, got, stop, crash, round, header_round, remaining_round,
  decoded_round, Scanned, scanned, crashed, cons_record, scan_loop, scan_segment,
}
use simon_mq.Durable.Wal.Scan.Recover.{
  header, remaining, encode-split, length-header, size_of_header, read_full-append, Writable, All,
  file_of, header-at_end, remaining-at_end, scan_loop-file,
}

decoded-rest :
    (d : Decoded) (size : ℕ) (bs : List ℕ) (r : Record) (n : ℕ) (rest : List ℕ)
    → decoded_round d size bs ≡ got r n rest
    → rest ≡ bs
decoded-rest (decoded x) size bs r n rest e = cc
decoded-rest too_short size bs r n rest e = absurd (cc)
decoded-rest invalid_crc size bs r n rest e = absurd (cc)
decoded-rest panicked size bs r n rest e = absurd (cc)

remaining-shorter :
    (size : ℕ) (h bs : List ℕ) (n : ℕ) (r : Record) (m : ℕ) (rest : List ℕ)
    → remaining_round (read_full size bs) h n ≡ got r m rest
    → length rest ≤ length bs
unfolding read_full
remaining-shorter size h bs n r m rest e = elim (Bool-cases (leb size (length bs))) [
  | inl long ↦ omega (
    arith,
    length-drop size bs,
    ap length
        (decoded-rest (decode (h ++ take size bs)) (12 + n) (drop size bs) r m rest (rw long at e)),
  )
  | inr short ↦ absurd (cc (remaining-at_end bs h n, rw short at e))
]

header-shorter :
    (h bs : List ℕ) (r : Record) (m : ℕ) (rest : List ℕ)
    → header_round (full h bs) ≡ got r m rest
    → length rest ≤ length bs
header-shorter h bs r m rest e =
    elim (Bool-cases (ltb max_log_length (from_le (sub_slice h 8 12)))) [
      | inl big ↦ absurd (cc (rw big at e))
      | inr fits ↦
          remaining-shorter (from_le (sub_slice h 8 12)) h bs (from_le (sub_slice h 8 12)) r m rest
            (rw fits at e)
    ]

-- A round that goes on leaves a shorter file.
round-shorter :
    (bs : List ℕ) (r : Record) (m : ℕ) (rest : List ℕ)
    → round bs ≡ got r m rest
    → length rest < length bs
unfolding round read_full
round-shorter bs r m rest e = elim (Bool-cases (leb 12 (length bs))) [
  | inl long ↦ omega (
    arith,
    leb→le 12 (length bs) long,
    length-drop 12 bs,
    header-shorter (take 12 bs) (drop 12 bs) r m rest (rw long at e),
  )
  | inr short ↦ absurd (cc (header-at_end bs, rw short at e))
]

Round-cases :
    (x : Round)
    → ((r : Record) × (m : ℕ) × (rest : List ℕ) × (x ≡ got r m rest)) ⊎ ((x ≡ stop) ⊎ (x ≡ crash))
Round-cases (got r m rest) = inl (r, m, rest, refl)
Round-cases stop = inr (inl refl)
Round-cases crash = inr (inr refl)

cons_record-ne-none :
    (r : Record) (n : ℕ) (s : Option Scanned) → s ≢ none → cons_record r n s ≢ none
cons_record-ne-none r n none h e = h refl
cons_record-ne-none r n (some crashed) h e = cc
cons_record-ne-none r n (some (scanned rs k)) h e = cc

scan_loop-ne-none : (fuel : ℕ) (bs : List ℕ) → length bs < fuel → scan_loop fuel bs ≢ none
unfolding scan_loop
scan_loop-ne-none zero bs h = absurd (omega arith)
scan_loop-ne-none (suc fuel) bs h = elim (Round-cases (round bs)) [
  | inl (r, m, rest, e) ↦
      rw (e, scan_loop)
        (cons_record-ne-none r m (scan_loop fuel rest)
          (scan_loop-ne-none fuel rest (omega (arith, round-shorter bs r m rest e))))
  | inr (inl e) ↦ rw (e, scan_loop) (λ p. cc)
  | inr (inr e) ↦ rw (e, scan_loop) (λ p. cc)
]

-- The scan of any bytes ends: the fuel of the model, one round for each byte and one more, never
-- runs out.
pub scan_segment_terminates : (bs : List ℕ) → scan_segment bs ≢ none
unfolding scan_segment
scan_segment_terminates bs = scan_loop-ne-none (suc (length bs)) bs (omega arith)

round-oversized :
    (r : Record) (rest : List ℕ)
    → Fits r
    → max_log_length < remaining_length r
    → round (encode r ++ rest) ≡ stop
unfolding round
round-oversized r rest f big = rw (
  encode-split r,
  append_assoc (header r),
  read_full-append 12 (header r) (remaining r ++ rest) (length-header r),
  size_of_header r f,
  lt→ltb max_log_length (remaining_length r) big,
)

-- A record above the reader's length limit ends the valid data of its segment for the scan of the
-- recovery: the scan returns the records before it, and neither that record nor any behind it. The records fit
-- their fields, and those before it stay below the limit.
pub oversized_record_is_lost :
    (rs : List Record) (big : Record) (later : List ℕ)
    → All Writable rs
    → Fits big
    → max_log_length < remaining_length big
    → scan_segment (file_of rs ++ (encode big ++ later)) ≡ some (scanned rs (length (file_of rs)))
unfolding scan_segment
oversized_record_is_lost rs big later w f above =
    scan_loop-file (suc (length (file_of rs ++ (encode big ++ later)))) rs (encode big ++ later) w
      (omega arith) (round-oversized big later f above)
