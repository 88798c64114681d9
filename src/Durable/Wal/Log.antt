-- ===== src/Durable/Wal/Log.antt =====
-- durable-mq/wal/wal.go: the log that the coordinator holds. In the mode `off` it has no files, and a
-- counter gives the numbers.
pub mod Replies
pub mod Kept
use simon_mq.Base.{
  Bool, true, false, not, ℕ, ◌+◌, ◌%◌, ◌^◌, Option, none, some, List, [], GoString, ◌>>=◌,
}
use simon_mq.Durable.Record.{Record}
use simon_mq.Durable.Wal.Segments.{
  Files, SegmentManager, new_segment_manager_with_threshold, delete_segments_before,
  delete_checkpoint_files_except, delete_tmp_files,
}
use simon_mq.Durable.Wal.Writer
use simon_mq.Durable.Wal.Writer.{
  Writer, Mode, mode_off, is_durable, Io, fine, sync_fails, write_fails, Appended, ok, open_writer,
}
use simon_mq.Durable.Wal.Reader
use simon_mq.Durable.Wal.Reader.{
  EndCheckpoint, Reader, Progress, Read, read, read_failed, read_crashed, open_reader,
}

pub data Log : Type 0 where
  off : ℕ → Log
  on : Writer → Option Reader → Log

-- The reader stands at the segments that the start found.
abbrev pub open_files : Files → ℕ → ℕ → Mode → Option Log
open_files files threshold max_seg_size mode = do
  w ← open_writer (new_segment_manager_with_threshold files threshold) max_seg_size mode
  rd ← open_reader w.sm
  some (on w rd)

unfoldable pub open_with_options : Files → ℕ → ℕ → Mode → Option Log
open_with_options files threshold max_seg_size mode_off = some (off 0)
open_with_options files threshold max_seg_size mode = open_files files threshold max_seg_size mode

abbrev pub written : Option Reader → Appended × Writer → Appended × Log
written rd (reply, w) = (reply, on w rd)

unfoldable pub append : Io → Log → Record → Appended × Log
append io (off n) r = (ok ((n + 1) % 2 ^ 64), off ((n + 1) % 2 ^ 64))
append io (on w rd) r = written rd (Writer.append io w r)

-- The records, with the log behind them; an error; or a panic of `Decode`.
pub data LogRead : Type 0 where
  log_read : List Record → Log → LogRead
  log_failed log_crashed : LogRead

-- The error of a removal is ignored.
abbrev or_same : SegmentManager → Option SegmentManager → SegmentManager
or_same sm none = sm
or_same sm (some sm') = sm'

abbrev pub cleaned : Progress → SegmentManager
cleaned p =
    let sm = delete_checkpoint_files_except p.sm p.valid_ckpt_name in
    delete_tmp_files (or_same sm (delete_segments_before sm p.valid_ckpt_lsn))

abbrev pub after_read : Writer → Option Reader → Option Read → Option LogRead
after_read w rd none = none
after_read w rd (some (read p)) = some (log_read p.records (on (record w { sm = cleaned p }) rd))
after_read w rd (some (read_failed p)) = some log_failed
after_read w rd (some read_crashed) = some log_crashed

-- `ReadAll`, on the reader's fuel.
unfoldable pub read_all : (List ℕ → Option EndCheckpoint) → ℕ → Log → Option LogRead
read_all decode_end_checkpoint fuel (off n) = some (log_read [] (off n))
read_all decode_end_checkpoint fuel (on w rd) =
    after_read w rd (Reader.read_all decode_end_checkpoint fuel w.sm rd)

-- Nothing where there are no files, else whether an append waits for the disk.
abbrev pub syncs : Log → Option Bool
syncs (off n) = none
syncs (on w rd) = some (is_durable w.mode)

-- Whether an append is accepted.
abbrev pub accepts : Option Bool → Io → Bool
accepts none io = true
accepts (some durable) fine = true
accepts (some durable) sync_fails = not durable
accepts (some durable) (write_fails k) = false

-- The files of a log.
abbrev pub files_of : Log → Files
files_of (off n) = []
files_of (on w rd) = w.sm.files
