-- ===== src/Durable/Wal/Scan.antt =====
-- `scanSegment` of durable-mq/wal/segment-mgr.go: the valid records at the front of a segment, and
-- the offset at which they end. A file that is being read is the list of the bytes still to come.
pub mod Recover
pub mod Limits
pub mod Corrupt
use simon_mq.Base.{
  ℕ, zero, suc, ◌+◌, ◌*◌, Option, none, some, List, [], ◌∷◌, ◌++◌, length, take, drop, ltb, leb,
  if◌then◌else◌, from_le,
}
use simon_mq.Durable.Record.{
  Record, Decoded, decoded, too_short, invalid_crc, panicked, decode, sub_slice,
}

abbrev pub max_log_length : ℕ
max_log_length = 16 * 1024 * 1024

-- `io.ReadFull` of `n` bytes: all of them with what follows, nothing at the end of the file, or
-- a part. A read of no bytes succeeds at the end too.
pub data ReadFull : Type 0 where
  full : List ℕ → List ℕ → ReadFull
  eof unexpected_eof : ReadFull

abbrev at_end : List ℕ → ReadFull
at_end [] = eof
at_end (b ∷ bs) = unexpected_eof

unfoldable pub read_full : ℕ → List ℕ → ReadFull
read_full n bs = if leb n (length bs) then full (take n bs) (drop n bs) else at_end bs

-- One round of the loop: a record with its size and the bytes behind it, the end of the valid
-- data, or a panic of `Decode`.
pub data Round : Type 0 where
  got : Record → ℕ → List ℕ → Round
  stop crash : Round

abbrev decoded_round : Decoded → ℕ → List ℕ → Round
decoded_round (decoded r) size rest = got r size rest
decoded_round panicked size rest = crash
decoded_round _ size rest = stop

abbrev remaining_round : ReadFull → List ℕ → ℕ → Round
remaining_round (full remaining rest) header size =
    decoded_round (decode (header ++ remaining)) (12 + size) rest
remaining_round _ header size = stop

abbrev header_round : ReadFull → Round
header_round (full header rest) =
    let size = from_le (sub_slice header 8 12) in
    if ltb max_log_length size then stop else remaining_round (read_full size rest) header size
header_round _ = stop

unfoldable pub round : List ℕ → Round
round bs = header_round (read_full 12 bs)

-- The records and the offset, or the panic.
pub data Scanned : Type 0 where
  scanned : List Record → ℕ → Scanned
  crashed : Scanned

abbrev pub cons_record : Record → ℕ → Option Scanned → Option Scanned
cons_record r size none = none
cons_record r size (some crashed) = some crashed
cons_record r size (some (scanned rs end)) = some (scanned (r ∷ rs) (size + end))

-- The loop on fuel; `none` where the fuel runs out.
pub scan_loop : ℕ → List ℕ → Option Scanned
scan_loop zero bs = none
scan_loop (suc fuel) bs = elim (round bs) [
  | got r size rest ↦ cons_record r size (scan_loop fuel rest)
  | stop ↦ some (scanned [] 0)
  | crash ↦ some crashed
]

-- Every round that goes on takes at least the twelve bytes of a header.
unfoldable pub scan_segment : List ℕ → Option Scanned
unfolding scan_loop
scan_segment bs = scan_loop (suc (length bs)) bs
