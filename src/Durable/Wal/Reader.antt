-- ===== src/Durable/Wal/Reader.antt =====
-- durable-mq/wal/reader.go: the records of all segments in order, with the checkpoints that they
-- mention. A file that is being read is the list of the bytes still to come.
pub mod Segs
pub mod Reads
use simon_mq.Base.{
  ℕ, zero, suc, ◌+◌, ◌==◌, Bool, true, false, Option, none, some, List, [], ◌∷◌, ◌++◌, GoString,
  str_eq, length, drop, ltb, leb, if◌then◌else◌, ◌>>=◌, from_le,
}
use simon_mq.Dict.{Dict, get, delete}
use simon_mq.Durable.Record
use simon_mq.Durable.Record.{Record, Decoded, decoded, panicked, decode, sub_slice}
use simon_mq.Durable.Wal.Scan.{
  max_log_length, ReadFull, full, eof, unexpected_eof, read_full, Scanned, scanned, crashed,
  scan_segment,
}
use simon_mq.Durable.Wal.Segments.{
  SegmentManager, segment_after, checksum_file, delete_checkpoint_files_except,
  delete_segments_before, delete_tmp_files,
}

-- The open segment and what is unread of it.
pub record Reader : Type 0 where
  pub current : GoString
  pub rest : List ℕ

-- The reader of a log without segments has no file.
abbrev open_first : SegmentManager → List GoString → Option (Option Reader)
open_first sm [] = some none
open_first sm (name ∷ segs) = do
  bytes ← get sm.files name
  some (some (record { current = name; rest = bytes }))

unfoldable pub open_reader : SegmentManager → Option (Option Reader)
open_reader sm = open_first sm sm.segments

abbrev is_none : Option GoString → Bool
is_none none = true
is_none (some s) = false

abbrev pub is_last_segment : SegmentManager → Reader → Bool
is_last_segment sm rd = is_none (segment_after sm rd.current)

-- A record with the reader behind it, the end of the log, an error, or a panic of `Decode`;
-- `moved` goes on with the next segment.
pub data Turn : Type 0 where
  got : Record → Reader → Turn
  moved : Reader → Turn
  ended failed crash : Turn

abbrev decoded_turn : Decoded → Reader → Turn
decoded_turn (decoded r) rd = got r rd
decoded_turn panicked rd = crash
decoded_turn _ rd = ended

-- A part of a record ends the last segment and is an error in any other.
abbrev cut_off : SegmentManager → Reader → Turn
cut_off sm rd = if is_last_segment sm rd then ended else failed

abbrev body_turn : SegmentManager → Reader → List ℕ → ReadFull → Turn
body_turn sm rd header (full remaining rest) =
    decoded_turn (decode (header ++ remaining)) (record rd { rest = rest })
body_turn sm rd header _ = cut_off sm rd

abbrev opened : GoString → Option (List ℕ) → Turn
opened name none = failed
opened name (some bytes) = moved (record { current = name; rest = bytes })

abbrev next_segment : SegmentManager → Option GoString → Turn
next_segment sm none = ended
next_segment sm (some name) = opened name (get sm.files name)

abbrev header_turn : SegmentManager → Reader → ReadFull → Turn
header_turn sm rd eof = next_segment sm (segment_after sm rd.current)
header_turn sm rd unexpected_eof = cut_off sm rd
header_turn sm rd (full header rest) =
    let size = from_le (sub_slice header 8 12) in
    if ltb max_log_length size then failed else body_turn sm rd header (read_full size rest)

-- One round of the loop of `readNext`.
unfoldable pub turn : SegmentManager → Reader → Turn
turn sm rd = header_turn sm rd (read_full 12 rd.rest)

pub record EndCheckpoint : Type 0 where
  pub file_name : GoString
  pub file_checksum : GoString

unfoldable pub split_at : List Record → ℕ → List Record
split_at [] lsn = []
split_at (r ∷ rs) lsn = if ltb lsn r.lsn then r ∷ rs else split_at rs lsn

-- What `readLoop` keeps from round to round. A corrupt checkpoint file is removed from the
-- directory.
pub record Progress : Type 0 where
  pub sm : SegmentManager
  pub records : List Record
  pub last_begin_ckpt_lsn : ℕ
  pub valid_ckpt_name : GoString
  pub valid_ckpt_lsn : ℕ

abbrev pub start : SegmentManager → Progress
start sm = record {
  sm = sm;
  records = [];
  last_begin_ckpt_lsn = 0;
  valid_ckpt_name = [];
  valid_ckpt_lsn = 0;
}

-- A checkpoint file counts if all of it is records. An absent result is a panic of `Decode`.
abbrev pub whole : List ℕ → Option Scanned → Option (Option (List Record))
whole bytes none = none
whole bytes (some crashed) = none
whole bytes (some (scanned rs valid_end)) =
    if valid_end == length bytes then some (some rs) else some none

abbrev resolved_file :
    SegmentManager
    → EndCheckpoint
    → Option (List ℕ)
    → Option (Option (List Record) × SegmentManager)
resolved_file sm e none = some (none, sm)
resolved_file sm e (some bytes) =
    if str_eq (checksum_file bytes) e.file_checksum
    then (do rs ← whole bytes (scan_segment bytes); some (rs, sm))
    else some (none, record sm { files = delete sm.files e.file_name })

unfoldable pub resolve_checkpoint :
    SegmentManager → EndCheckpoint → Option (Option (List Record) × SegmentManager)
resolve_checkpoint sm e = resolved_file sm e (get sm.files e.file_name)

abbrev with_checkpoint : Progress → EndCheckpoint → Option (List Record) × SegmentManager → Progress
with_checkpoint p e (none, sm) = record p { sm = sm }
with_checkpoint p e (some rs, sm) = record p {
  sm = sm;
  records = rs ++ split_at p.records p.last_begin_ckpt_lsn;
  valid_ckpt_name = e.file_name;
  valid_ckpt_lsn = p.last_begin_ckpt_lsn;
}

abbrev end_checkpoint : Progress → Option EndCheckpoint → Option Progress
end_checkpoint p none = some p
end_checkpoint p (some e) = do found ← resolve_checkpoint p.sm e; some (with_checkpoint p e found)

-- The log as it is read: the progress at its end, the error that `readNext` returned, or a panic.
pub data Read : Type 0 where
  read : Progress → Read
  read_failed : Progress → Read
  read_crashed : Read

module _ (decode_end_checkpoint : List ℕ → Option EndCheckpoint) where
  unfoldable pub note_checkpoint : Progress → Record → Option Progress
  note_checkpoint p r =
      if r.op_type == Record.op_begin_checkpoint
      then some (record p { last_begin_ckpt_lsn = r.lsn })
      else if r.op_type == Record.op_end_checkpoint
      then end_checkpoint p (decode_end_checkpoint r.payload)
      else some p

  abbrev noted : Progress → Record → Progress
  noted p r = record p { records = p.records ++ r ∷ [] }

  -- The rounds of `readLoop` and of `readNext` inside it, on fuel.
  unfoldable pub read_loop : (Record → Bool) → ℕ → Progress → Reader → Option Read
  read_loop stop zero p rd = none
  read_loop stop (suc fuel) p rd = elim (turn p.sm rd) [
    | moved rd' ↦ read_loop stop fuel p rd'
    | ended ↦ some (read p)
    | failed ↦ some (read_failed p)
    | crash ↦ some read_crashed
    | got r rd' ↦ elim (note_checkpoint p r) [
      | none ↦ some read_crashed
      | some q ↦ if stop r then some (read (noted q r)) else read_loop stop fuel (noted q r) rd'
    ]
  ]

  unfoldable pub read_all : ℕ → SegmentManager → Option Reader → Option Read
  read_all fuel sm none = some (read (start sm))
  read_all fuel sm (some rd) = read_loop (λ r. false) fuel (start sm) rd

  unfoldable pub read_up_to : ℕ → ℕ → SegmentManager → Option Reader → Option Read
  read_up_to lsn fuel sm none = some (read (start sm))
  read_up_to lsn fuel sm (some rd) = read_loop (λ r. leb lsn r.lsn) fuel (start sm) rd
