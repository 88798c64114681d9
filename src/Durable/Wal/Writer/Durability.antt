-- ===== src/Durable/Wal/Writer/Durability.antt =====
-- durable-mq/wal: the log as a whole, from an empty directory on.
use simon_mq.Base.{
  ℕ, ◌+◌, ◌*◌, ◌^◌, ◌<◌, ◌≡◌, refl, Option, some, List, [], ◌∷◌, ◌++◌, arith, str_eq_refl, length,
  sort,
}
use simon_mq.Dict.{get, has, put}
use simon_mq.Durable.Record.{Record}
use simon_mq.Durable.Wal.Scan.Recover.{file_of}
use simon_mq.Durable.Wal.Names.{segment_file_name}
use simon_mq.Durable.Wal.Names.RoundTrip.{segment_file_name-ne}
use simon_mq.Durable.Wal.Names.Order.{segment-has_suffix}
use simon_mq.Durable.Wal.Segments.{
  new_segment_manager_with_threshold, refresh, recover, create_segment, last_of,
}
use simon_mq.Durable.Wal.Writer.{Writer, Mode, open_writer, Session, run_sessions}
use simon_mq.Durable.Wal.Writer.Sessions.{
  Logs, AllStorable, AllFit, stored, numbered_from, sessions_lem,
}
use simon_mq.Durable.Wal.Writer.Reading.{read-Logs}
use simon_mq.Durable.Wal.Reader.{EndCheckpoint, Reader, open_reader, read, read_all}
use simon_mq.Durable.Wal.Reader.Reads.{at}

-- The writer of the first start, on an empty directory.
abbrev pub fresh_writer : ℕ → ℕ → Mode → Writer
fresh_writer threshold max_seg_size mode = record {
  sm = (create_segment (new_segment_manager_with_threshold [] threshold) 1).1;
  file = segment_file_name 1;
  current_size = 0;
  max_seg_size = max_seg_size;
  next_lsn = 1;
  mode = mode;
}

pub first_start :
    (threshold max_seg_size : ℕ) (mode : Mode)
    → (open_writer (new_segment_manager_with_threshold [] threshold) max_seg_size mode
        ≡ some (fresh_writer threshold max_seg_size mode))
      × Logs (fresh_writer threshold max_seg_size mode) max_seg_size []
unfolding open_writer get new_segment_manager_with_threshold refresh recover create_segment last_of
    sort has put file_of
first_start threshold max_seg_size mode = (
  refl,
  record {
    closed = [];
    last = record { first = 1; records = [] };
    log = record {
      names = refl;
      listed = rw (segment-has_suffix 1) refl;
      files = tt;
      last_file = rw (str_eq_refl (segment_file_name 1)) refl;
      file = refl;
      runs = refl;
      good = tt;
      next = omega arith;
      size = refl;
      free = λ n lt b. rw (segment_file_name-ne 1 n (omega arith) b lt) refl;
    };
    all = refl;
    next = omega arith;
    size = refl;
  },
)

AllStorable-append :
    (m : ℕ) (rs ss : List Record) → AllStorable m rs → AllStorable m ss → AllStorable m (rs ++ ss)
AllStorable-append m [] ss g h = h
AllStorable-append m (r ∷ rs) ss g h = (g.0, AllStorable-append m rs ss g.1 h)

stored-AllStorable :
    (m : ℕ) (sessions : List Session) → AllFit m sessions → AllStorable m (stored sessions)
stored-AllStorable m [] f = tt
stored-AllStorable m (s ∷ sessions) f =
    AllStorable-append m s.records (stored sessions) f.0.records (stored-AllStorable m sessions f.1)

-- Any number of processes append records to the same directory, one after the other, and each dies
-- in the middle of a write. Then every start succeeds, the next record after the last one gets the number that follows, and
-- the reader returns, within the given number of rounds, exactly the records whose append had succeeded, in
-- order and numbered from 1 on without a gap: whatever the segment size, as long as each record
-- fits a segment, the reader's length limit and its fields, is no mark of a checkpoint, and the numbers
-- stay below 2 ^ 64.
pub log_survives_crashes :
    (decode_end_checkpoint : List ℕ → Option EndCheckpoint) (threshold max_seg_size : ℕ)
    (mode : Mode) (sessions : List Session)
    → AllFit max_seg_size sessions
    → 1 + length (stored sessions) < 2 ^ 64
    → (w0 : Writer) × (open_writer
          (new_segment_manager_with_threshold [] threshold)
          max_seg_size
          mode
        ≡ some w0)
      × (w : Writer) × (run_sessions threshold w0 sessions ≡ some w)
      × (w.next_lsn ≡ 1 + length (stored sessions))
      × (rd : Option Reader) × (open_reader w.sm ≡ some rd)
      × (read_all decode_end_checkpoint (2 * length (stored sessions) + 1) w.sm rd
          ≡ some (read (at decode_end_checkpoint w.sm (numbered_from 1 (stored sessions)))))
log_survives_crashes decode_end_checkpoint threshold max_seg_size mode sessions f bound =
    let w0 = fresh_writer threshold max_seg_size mode in
    let (opened, l0) = first_start threshold max_seg_size mode in
    let (w, ran, l) = sessions_lem threshold max_seg_size w0 [] sessions l0 f bound in
    let (rd, reads, found) =
      read-Logs decode_end_checkpoint w max_seg_size (stored sessions) l
        (stored-AllStorable max_seg_size sessions f) bound in
    (w0, opened, w, ran, l.next, rd, reads, found)
