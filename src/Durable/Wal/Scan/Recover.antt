-- ===== src/Durable/Wal/Scan/Recover.antt =====
-- What a scan finds in a log that was cut off in the middle of an append.
use simon_mq.Base.{
  ℕ, zero, suc, ◌+◌, ◌-◌, ◌%◌, ◌^◌, ◌≤◌, ◌<◌, ◌≡◌, refl, ◌∙◌, sym, ap, inl, inr, some, List, [],
  ◌∷◌, ◌++◌, length, take, arith, length-append, length-take_le, take-append, take-append_le,
  checksum_ieee, drop-append, ltb, ltb→lt, ltb_false→le, le→leb, ltb_of_le, if◌then◌else◌,
  Bool-cases, le_bytes, from_le, length-le_bytes, from_le-le_bytes_4,
}
use mathlib.Core.List.{append_assoc, append-nil}
use native.Mathlib.Nat.{mod-eq_of_lt}
use simon_mq.Durable.Record.{
  Record, remaining_length, encode, encode_body, decoded, decode, sub_slice,
}
use simon_mq.Durable.Record.RoundTrip.{Fits, decode-encode}
use simon_mq.Durable.Wal.Scan.{
  max_log_length, full, read_full, at_end, got, stop, round, header_round, remaining_round, scanned,
  scan_loop, scan_segment,
}

-- A record that the writer's fields hold and that the reader's limit admits.
pub record Writable (r : Record) : Type 0 where
  pub fits : Fits r
  pub limit : remaining_length r ≤ max_log_length

unfoldable pub All {ℓ} : {A : Type ℓ} → (A → Type 0) → List A → Type 0
All P [] = Unit
All P (x ∷ xs) = P x × All P xs

pub read_full-append :
    (n : ℕ) (xs ys : List ℕ) → length xs ≡ n → read_full n (xs ++ ys) ≡ full xs ys
unfolding read_full
read_full-append n xs ys e = rw (
  le→leb n (length (xs ++ ys)) (omega (arith, length-append xs ys, e)),
  take-append n xs ys e,
  drop-append n xs ys e,
)

pub read_full_short : (n : ℕ) (bs : List ℕ) → length bs < n → read_full n bs ≡ at_end bs
unfolding read_full
read_full_short n bs h = ground arith

pub header-at_end : (bs : List ℕ) → header_round (at_end bs) ≡ stop
header-at_end [] = refl
header-at_end (b ∷ bs) = refl

pub remaining-at_end : (bs h : List ℕ) (size : ℕ) → remaining_round (at_end bs) h size ≡ stop
remaining-at_end [] h size = refl
remaining-at_end (b ∷ bs) h size = refl

-- The header of a record, and the rest of it.
abbrev pub header : Record → List ℕ
header r = le_bytes 8 r.lsn ++ le_bytes 4 (remaining_length r % 2 ^ 32)

-- What follows the header.
abbrev pub remaining : Record → List ℕ
remaining r =
    (r.op_type % 256 ∷ (le_bytes 4 (length r.queue_name % 2 ^ 32) ++ (r.queue_name ++ r.payload)))
    ++ le_bytes 4 (checksum_ieee (encode_body r))

module _ (r : Record) where
  pub length-header : length (header r) ≡ 12
  length-header = omega (arith, length-append {0}, length-le_bytes)

  pub length-encode : length (encode r) ≡ remaining_length r + 12
  unfolding encode
  length-encode = omega (arith, length-append {0}, length-le_bytes)

  pub encode-split : encode r ≡ header r ++ remaining r
  unfolding encode
  encode-split = simp append_assoc

  pub length-remaining : length (remaining r) ≡ remaining_length r
  length-remaining = omega (
    arith,
    length-append (header r) (remaining r),
    length-header,
    length-encode,
    ap length encode-split,
  )

  pub size_of_header : Fits r → from_le (sub_slice (header r) 8 12) ≡ remaining_length r
  size_of_header f =
      ap (λ xs. from_le (take 4 xs)) (drop-append 8 (le_bytes 8 r.lsn) _ (length-le_bytes 8 r.lsn))
      ∙ (ap from_le (
            ap (λ xs. take 4 xs) (sym (append-nil (le_bytes 4 (remaining_length r % 2 ^ 32))))
            ∙ take-append 4 (le_bytes 4 (remaining_length r % 2 ^ 32)) [] (length-le_bytes 4 _))
          ∙ (from_le-le_bytes_4 _ (omega arith) ∙ mod-eq_of_lt f.length_fits))

  pub decode-whole : Fits r → decode (header r ++ remaining r) ≡ decoded r
  decode-whole f = ap decode (sym encode-split ∙ sym (append-nil (encode r))) ∙ decode-encode r [] f

  -- A whole record at the front is read.
  pub round-encode :
      (rest : List ℕ) → Writable r → round (encode r ++ rest) ≡ got r (12 + remaining_length r) rest
  unfolding round
  round-encode rest w = rw (
    encode-split,
    append_assoc (header r),
    read_full-append 12 (header r) (remaining r ++ rest) length-header,
    size_of_header w.fits,
    ltb_of_le max_log_length (remaining_length r) w.limit,
    read_full-append (remaining_length r) (remaining r) rest length-remaining,
    decode-whole w.fits,
  )

  cut_round :
      (size : ℕ) (bs : List ℕ)
      → length bs < size
      → (if ltb max_log_length size
          then stop
          else remaining_round (read_full size bs) (header r) size)
        ≡ stop
  cut_round size bs short =
      rw (read_full_short size bs short) (elim (Bool-cases (ltb max_log_length size)) [
        | inl e ↦ rw e
        | inr e ↦ rw e (remaining-at_end bs (header r) size)
      ])

  -- A record that was cut off ends the scan.
  pub round-torn : (k : ℕ) → k < length (encode r) → Fits r → round (take k (encode r)) ≡ stop
  unfolding round
  round-torn k short f = elim (Bool-cases (ltb k 12)) [
    | inl low ↦
        rw
          (read_full_short 12 (take k (encode r))
            (omega (arith, ltb→lt k 12 low, length-take_le k (encode r) (omega arith))))
          (header-at_end (take k (encode r)))
    | inr high ↦
        rw
          (
            encode-split,
            take-append_le 12 k (header r) (remaining r) length-header (ltb_false→le k 12 high),
            read_full-append 12 (header r) (take (k - 12) (remaining r)) length-header,
            size_of_header f,
          )
          (cut_round (remaining_length r) (take (k - 12) (remaining r)) (
            omega (
              arith,
              ltb_false→le k 12 high,
              length-encode,
              length-remaining,
              length-take_le (k - 12) (remaining r),
            )))
  ]

-- The file after these appends.
unfoldable pub file_of : List Record → List ℕ
file_of [] = []
file_of (r ∷ rs) = encode r ++ file_of rs

pub scan_loop-file :
    (fuel : ℕ) (rs : List Record) (torn : List ℕ)
    → All Writable rs
    → length (file_of rs ++ torn) < fuel
    → round torn ≡ stop
    → scan_loop fuel (file_of rs ++ torn) ≡ some (scanned rs (length (file_of rs)))
unfolding scan_loop file_of All
scan_loop-file zero rs torn w enough t = absurd (omega arith)
scan_loop-file (suc fuel) [] torn w enough t = rw (t, scan_loop)
scan_loop-file (suc fuel) (r ∷ rs) torn w enough t =
    rw
      (
        append_assoc (encode r) (file_of rs) torn,
        round-encode r (file_of rs ++ torn) w.0,
        scan_loop,
      )
      (rw
        (scan_loop-file fuel rs torn w.1 (omega (arith, enough, length-encode r, length-append {0}))
          t)
        (ap (λ n. some (scanned (r ∷ rs) n)) (omega (arith, length-encode r, length-append {0}))))

-- A crash during an append loses no acknowledged record and invents none: a segment that holds the
-- records `rs` and then a proper part of one more, none or all but the last byte of it included, is
-- read as exactly `rs`, and the valid data ends where the unfinished append began. Each record fits
-- its fields, and those of `rs` stay below the reader's length limit.
pub recover_after_crash :
    (rs : List Record) (cut : Record) (k : ℕ)
    → All Writable rs
    → Fits cut
    → k < length (encode cut)
    → scan_segment (file_of rs ++ take k (encode cut)) ≡ some (scanned rs (length (file_of rs)))
unfolding scan_segment
recover_after_crash rs cut k w f short =
    scan_loop-file (suc (length (file_of rs ++ take k (encode cut)))) rs (take k (encode cut)) w
      (omega arith) (round-torn cut k short f)
