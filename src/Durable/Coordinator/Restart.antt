-- ===== src/Durable/Coordinator/Restart.antt =====
-- durable-mq/coordinator: a process that makes calls and dies in the middle of a write, and what the
-- next process reads from the same directory.
use simon_mq.Base.{
  arith, ℕ, ◌+◌, ◌*◌, ◌^◌, ◌<◌, ◌≡◌, ◌≢◌, refl, ◌∙◌, sym, ap, Option, some, List, [], length,
}
use simon_mq.Durable.Model.{Codec}
use simon_mq.Durable.Record.{Record}
use simon_mq.Durable.Wal.Segments.{Files, new_segment_manager_with_threshold}
use simon_mq.Durable.Wal.Writer.{
  Writer, Mode, mode_sync, mode_no_sync, mode_off, write_fails, append_all, open_writer, Session,
  crashed_files,
}
use simon_mq.Durable.Wal.Writer.Sessions.{SessionFits, numbered_from, session_lem}
use simon_mq.Durable.Wal.Writer.Reading.{read-Logs}
use simon_mq.Durable.Wal.Writer.Durability.{fresh_writer, first_start}
use simon_mq.Durable.Wal.Reader.{EndCheckpoint, Reader, open_reader}
use simon_mq.Durable.Wal.Reader.Reads.{at}
use simon_mq.Durable.Wal.Log
use simon_mq.Durable.Wal.Log.{Log, off, on, cleaned, files_of, open_files, open_with_options}
use simon_mq.Durable.Catalog.{Catalog}
use simon_mq.Durable.Coordinator.{
  Replay, Result, ok, err, ReplayResult, replayed, outcome, new_replay, replay_records, replay_log,
}
use simon_mq.Durable.Coordinator.Logged.{logged, logged-numbered_from, replay_records-cat}
use simon_mq.Durable.Coordinator.Runs.{Call, new_coordinator, calls, trace, calls_lem}

-- The directory after a write that stops after some bytes.
unfoldable pub torn_files : Log → Record → ℕ → Files
torn_files log cut written = files_of (Log.append (write_fails written) log cut).1

-- The session of the log under these calls.
abbrev pub session_of : Codec → List Call → Record → ℕ → Session
session_of codec xs cut written = record {
  records = trace codec [] xs;
  cut = cut;
  written = written;
}

-- The fuel that reads these records.
abbrev pub enough : Codec → List Call → ℕ
enough codec xs = 2 * length (trace codec [] xs) + 1

-- The modes with files.
open_on :
    (files : Files) (threshold max_seg_size : ℕ) (mode : Mode)
    → mode ≢ mode_off
    → open_with_options files threshold max_seg_size mode
      ≡ open_files files threshold max_seg_size mode
unfolding open_with_options
open_on files threshold max_seg_size mode_sync ne = refl
open_on files threshold max_seg_size mode_no_sync ne = refl
open_on files threshold max_seg_size mode_off ne = absurd (ne refl)

open_files_lem :
    (files : Files) (threshold max_seg_size : ℕ) (mode : Mode) (w : Writer) (rd : Option Reader)
    → mode ≢ mode_off
    → open_writer (new_segment_manager_with_threshold files threshold) max_seg_size mode ≡ some w
    → open_reader w.sm ≡ some rd
    → open_with_options files threshold max_seg_size mode ≡ some (on w rd)
open_files_lem files threshold max_seg_size mode w rd ne opened reads =
    open_on files threshold max_seg_size mode ne ∙ rw (opened, reads) refl

torn_lem :
    (w : Writer) (rd : Option Reader) (rs : List Record) (cut : Record) (written : ℕ)
    → torn_files (on (append_all w rs) rd) cut written
      ≡ crashed_files w (record { records = rs; cut = cut; written = written })
unfolding torn_files Log.append crashed_files
torn_lem w rd rs cut written = refl

-- The catalog of a replay that ended well.
abbrev state_of : ReplayResult → Catalog
state_of (replayed s log) = s.cat
state_of _ = []

module _ (codec : Codec) (decode_end_checkpoint : List ℕ → Option EndCheckpoint)
    (threshold max_seg_size : ℕ) (mode : Mode) (xs : List Call) (cut : Record) (written : ℕ) where
  -- The first process starts on an empty directory, makes the calls and dies in the write; the next
  -- one starts on what is left, and its replay is that of the records of the calls.
  pub record Restarted : Type 0 where
    pub first_writer : Writer
    pub first_reader : Option Reader
    pub started :
        open_with_options [] threshold max_seg_size mode ≡ some (on first_writer first_reader)
    pub catalog :
        (calls codec (new_coordinator (on first_writer first_reader)) xs).cat
        ≡ logged codec [] (trace codec [] xs)
    pub second : Log
    pub restarted :
        open_with_options
          (torn_files
            (calls codec (new_coordinator (on first_writer first_reader)) xs).log
            cut
            written)
          threshold
          max_seg_size
          mode
        ≡ some second
    pub behind : Log
    pub replay :
        replay_log codec decode_end_checkpoint (enough codec xs) (new_coordinator second)
        ≡ some (
            outcome codec decode_end_checkpoint behind
              (replay_records codec new_replay (numbered_from 1 (trace codec [] xs))))

  pub restarted_lem :
      mode ≢ mode_off
      → SessionFits max_seg_size (session_of codec xs cut written)
      → 1 + length (trace codec [] xs) < 2 ^ 64
      → Restarted
  restarted_lem ne fits bound =
      let w0 = fresh_writer threshold max_seg_size mode in
      let rs = trace codec [] xs in
      let s = session_of codec xs cut written in
      let (opened, l0) = first_start threshold max_seg_size mode in
      let (rd0, reads0, _) =
        read-Logs decode_end_checkpoint w0 max_seg_size [] l0 tt (omega arith) in
      let (w, reopened, l) = session_lem threshold max_seg_size w0 [] s l0 fits bound in
      let (rd, reads, found) =
        read-Logs decode_end_checkpoint w max_seg_size rs l fits.records bound in
      let ran = calls_lem codec w0 rd0 [] xs in
      let left : torn_files (calls codec (new_coordinator (on w0 rd0)) xs).log cut written
          ≡ crashed_files w0 s =
        ap (λ c. torn_files c.log cut written) ran ∙ torn_lem w0 rd0 rs cut written in
      record {
        first_writer = w0;
        first_reader = rd0;
        started = open_files_lem [] threshold max_seg_size mode w0 rd0 ne opened reads0;
        catalog = ap (λ c. c.cat) ran;
        second = on w rd;
        restarted = open_files_lem _ threshold max_seg_size mode w rd ne (rw left reopened) reads;
        behind =
            on (record w { sm = cleaned (at decode_end_checkpoint w.sm (numbered_from 1 rs)) }) rd;
        replay = unfold replay_log Log.read_all in rw found refl;
      }

  -- A process starts on an empty directory, in a mode with files, makes calls whose appends succeed,
  -- and dies in the middle of one more write. Then the next start on the directory succeeds, its replay comes to
  -- an end within the given fuel, and if that is without error, the catalog is the one that the dead process
  -- had. The records of the calls fit a segment, the reader's limit and their fields, no checkpoint
  -- is made, and the numbers stay below 2 ^ 64.
  pub restart_restores_catalog :
      mode ≢ mode_off
      → SessionFits max_seg_size (session_of codec xs cut written)
      → 1 + length (trace codec [] xs) < 2 ^ 64
      → (first : Log) × (open_with_options [] threshold max_seg_size mode ≡ some first)
        × (second : Log) × (open_with_options
              (torn_files (calls codec (new_coordinator first) xs).log cut written)
              threshold
              max_seg_size
              mode
            ≡ some second)
        × (result : ReplayResult) × (replay_log codec decode_end_checkpoint
              (enough codec xs)
              (new_coordinator second)
            ≡ some result)
        × ((s : Replay) (log : Log)
            → result ≡ replayed s log
            → s.cat ≡ (calls codec (new_coordinator first) xs).cat)
  restart_restores_catalog ne fits bound =
      let r = restarted_lem ne fits bound in
      let rs = trace codec [] xs in
      (
        on r.first_writer r.first_reader,
        r.started,
        r.second,
        r.restarted,
        outcome codec decode_end_checkpoint r.behind
            (replay_records codec new_replay (numbered_from 1 rs)),
        r.replay,
        λ s log e.
            outcome-cat r.behind (replay_records codec new_replay (numbered_from 1 rs)) s log e
              (λ t f. replay_records-cat codec new_replay t (numbered_from 1 rs) f)
            ∙ logged-numbered_from codec 1 [] rs
            ∙ sym r.catalog,
      )
    where
      outcome-cat :
          {cat : Catalog} (behind : Log) (o : Result Replay) (s : Replay) (log : Log)
          → outcome codec decode_end_checkpoint behind o ≡ replayed s log
          → ((t : Replay) → o ≡ ok t → t.cat ≡ cat)
          → s.cat ≡ cat
      outcome-cat behind (ok t) s log e rec = ap state_of (sym e) ∙ rec t refl
      outcome-cat behind (err x) s log e rec = absurd cc
