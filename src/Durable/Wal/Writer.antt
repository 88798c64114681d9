-- ===== src/Durable/Wal/Writer.antt =====
-- durable-mq/wal/writer.go, and the modes of durable-mq/wal/wal.go. The writer's file is open for
-- appending; opening and closing files succeeds.
pub mod Logs
pub mod Appends
pub mod Restart
pub mod Survives
pub mod Sessions
pub mod Reading
pub mod Durability
pub mod Oversized
use simon_mq.Base.{
  ℕ, ◌+◌, ◌%◌, ◌^◌, Bool, true, false, Option, none, some, List, [], ◌∷◌, ◌++◌, GoString, codes,
  str_eq, length, take, ltb, if◌then◌else◌, ◌>>=◌,
}
use simon_mq.Dict.{get, put}
use simon_mq.Durable.Record.{Record, encode}
use simon_mq.Durable.Wal.Segments.{
  Files, SegmentManager, new_segment_manager_with_threshold, RecoveryState, create_segment, recover,
}

pub data Mode : Type 0 where
  mode_sync mode_no_sync mode_off : Mode

abbrev pub mode_string : Mode → GoString
mode_string mode_sync = codes "sync"
mode_string mode_no_sync = codes "nosync"
mode_string mode_off = codes "off"

-- An unknown name is an error.
unfoldable pub parse_mode : GoString → Option Mode
parse_mode s =
    if str_eq s (codes "sync")
    then some mode_sync
    else if str_eq s (codes "nosync")
    then some mode_no_sync
    else if str_eq s (codes "off")
    then some mode_off
    else none

abbrev pub is_durable : Mode → Bool
is_durable mode_sync = true
is_durable _ = false

pub record Writer : Type 0 where
  pub sm : SegmentManager
  pub file : GoString
  pub current_size : ℕ
  pub max_seg_size : ℕ
  pub next_lsn : ℕ
  pub mode : Mode

abbrev pub writer_of : RecoveryState → ℕ → Mode → Writer
writer_of rs max_seg_size mode = record {
  sm = rs.sm;
  file = rs.file;
  current_size = rs.size;
  max_seg_size = max_seg_size;
  next_lsn = rs.next_lsn;
  mode = mode;
}

unfoldable pub open_writer : SegmentManager → ℕ → Mode → Option Writer
open_writer sm max_seg_size mode = do rs ← recover sm; some (writer_of rs max_seg_size mode)

unfoldable pub roll_segment : Writer → Writer
roll_segment w =
    let created = create_segment w.sm w.next_lsn in
    record w { sm = created.1; file = created.0; current_size = 0 }

-- What the operating system does with the write of a record: it succeeds, or stops after some bytes
-- with an error, or the sync behind it fails.
pub data Io : Type 0 where
  fine sync_fails : Io
  write_fails : ℕ → Io

pub data Appended : Type 0 where
  ok : ℕ → Appended
  failed : Appended

abbrev pub or_empty : Option (List ℕ) → List ℕ
or_empty none = []
or_empty (some bytes) = bytes

abbrev pub write_bytes : Writer → List ℕ → Writer
write_bytes w bytes = record w {
  sm = record w.sm { files = put w.sm.files w.file (or_empty (get w.sm.files w.file) ++ bytes) };
}

-- The number of the next record is a uint64.
abbrev pub counted : Writer → ℕ → Writer
counted w size = record w {
  current_size = w.current_size + size;
  next_lsn = (w.next_lsn + 1) % 2 ^ 64;
}

abbrev pub write_record : Io → Writer → List ℕ → Appended × Writer
write_record fine w buf = (ok w.next_lsn, counted (write_bytes w buf) (length buf))
write_record (write_fails k) w buf = (failed, write_bytes w (take k buf))
write_record sync_fails w buf =
    if is_durable w.mode
    then (failed, write_bytes w buf)
    else (ok w.next_lsn, counted (write_bytes w buf) (length buf))

abbrev pub numbered : ℕ → Record → Record
numbered lsn r = record r { lsn = lsn }

unfoldable pub append : Io → Writer → Record → Appended × Writer
append io w r =
    let buf = encode (numbered w.next_lsn r) in
    write_record io (if ltb w.max_seg_size (w.current_size + length buf) then roll_segment w else w)
      buf

-- All these appends succeed.
unfoldable pub append_all : Writer → List Record → Writer
append_all w [] = w
append_all w (r ∷ rs) = append_all (append fine w r).1 rs

-- A process that appends records and dies when `written` bytes of one more are written.
pub record Session : Type 0 where
  pub records : List Record
  pub cut : Record
  pub written : ℕ

unfoldable pub crashed_files : Writer → Session → Files
crashed_files w s = (append (write_fails s.written) (append_all w s.records) s.cut).1.sm.files

-- One session after the other on the same directory, with the start of the next one.
unfoldable pub run_sessions : ℕ → Writer → List Session → Option Writer
run_sessions threshold w [] = some w
run_sessions threshold w (s ∷ sessions) = do
  w' ←
      open_writer (new_segment_manager_with_threshold (crashed_files w s) threshold) w.max_seg_size
        w.mode
  run_sessions threshold w' sessions
