-- ===== src/Durable/Wal/Writer/Oversized.antt =====
-- durable-mq/wal: a first record that is larger than a segment.
use simon_mq.Base.{
  ℕ, zero, suc, ◌+◌, ◌<◌, ◌≤◌, ◌≡◌, refl, true, false, Option, none, some, List, [], ◌∷◌, ◌++◌,
  arith, GoString, str_eq_refl, sort, length, ltb, lt→ltb,
}
use mathlib.Core.List.{append-nil}
use simon_mq.Dict.{get, has, put}
use simon_mq.Durable.Record.{Record, encode, remaining_length}
use simon_mq.Durable.Wal.Scan.{max_log_length}
use simon_mq.Durable.Wal.Scan.Recover.{Writable, length-encode}
use simon_mq.Durable.Wal.Names.{segment_file_name}
use simon_mq.Durable.Wal.Segments.{
  SegmentManager, create_segment, next_after, segment_after, refresh,
  new_segment_manager_with_threshold,
}
use simon_mq.Durable.Wal.Writer.{Writer, Mode, fine, ok, append, numbered, roll_segment}
use simon_mq.Durable.Wal.Reader.{EndCheckpoint, Reader, open_reader, read_loop, read_all}
use simon_mq.Durable.Wal.Reader.Reads.{IsPlain, turn-encode, turn_next, note-plain, at}
use simon_mq.Durable.Wal.Writer.Durability.{fresh_writer}

-- A segment that stands twice in the list is its own successor.
module _ (decode_end_checkpoint : List ℕ → Option EndCheckpoint) (sm : SegmentManager)
    (name : GoString) (r : Record) (twice : sm.segments ≡ name ∷ name ∷ [])
    (held : get sm.files name ≡ some (encode r ++ [])) (w : Writable r) (plain : IsPlain r) where
  again : segment_after sm name ≡ some name
  unfolding segment_after next_after
  again = rw (twice, next_after, str_eq_refl name) refl

  loops :
      (fuel : ℕ) (acc : List Record)
      → (read_loop decode_end_checkpoint
            (λ r. false)
            fuel
            (at decode_end_checkpoint sm acc)
            (record { current = name; rest = encode r ++ [] })
          ≡ none)
        × (read_loop decode_end_checkpoint
              (λ r. false)
              fuel
              (at decode_end_checkpoint sm acc)
              (record { current = name; rest = [] })
            ≡ none)
  unfolding read_loop
  loops zero acc = (refl, refl)
  loops (suc fuel) acc = (
    rw
        (
          turn-encode sm name r [] w,
          note-plain decode_end_checkpoint sm (at decode_end_checkpoint sm acc) r plain,
          read_loop,
        )
        (loops fuel (acc ++ r ∷ [])).1,
    rw (turn_next sm name name (encode r ++ []) again held, read_loop) (loops fuel acc).0,
  )

  never_read :
      (rd : Option Reader) × (open_reader sm ≡ some rd)
      × ((fuel : ℕ) → read_all decode_end_checkpoint fuel sm rd ≡ none)
  unfolding open_reader read_all
  never_read = (
    some (record { current = name; rest = encode r ++ [] }),
    rw (twice, held) refl,
    λ fuel. (loops fuel []).0,
  )

-- The segment is created a second time, under its old name.
module _ (threshold max_seg_size : ℕ) (mode : Mode) (r : Record)
    (h : max_seg_size < remaining_length r + 12) where
  abbrev first : Writer
  first = (append fine (fresh_writer threshold max_seg_size mode) r).1

  rolls : ltb max_seg_size (0 + length (encode (numbered 1 r))) ≡ true
  rolls =
      lt→ltb max_seg_size (0 + length (encode (numbered 1 r)))
        (omega (arith, length-encode (numbered 1 r)))

  accepted : (append fine (fresh_writer threshold max_seg_size mode) r).0 ≡ ok 1
  unfolding append roll_segment
  accepted = rw rolls refl

  twice : first.sm.segments ≡ segment_file_name 1 ∷ segment_file_name 1 ∷ []
  unfolding append roll_segment create_segment new_segment_manager_with_threshold refresh sort
  twice = rw rolls refl

  held : get first.sm.files (segment_file_name 1) ≡ some (encode (numbered 1 r) ++ [])
  unfolding append roll_segment create_segment new_segment_manager_with_threshold refresh has put
      get
  held =
      rw
        (
          rolls,
          str_eq_refl (segment_file_name 1),
          str_eq_refl (segment_file_name 1),
          str_eq_refl (segment_file_name 1),
          append-nil (encode (numbered 1 r)),
        )
        refl

-- If the first record of a new log is larger than a segment, then its append succeeds, but a reader
-- of the running process never comes to the end of the log: the one segment stands twice in the list, and the
-- reader reads it again and again.
pub oversized_first_record_loops :
    (decode_end_checkpoint : List ℕ → Option EndCheckpoint) (threshold max_seg_size : ℕ)
    (mode : Mode) (r : Record)
    → max_seg_size < remaining_length r + 12
    → r.op_type < 256
    → remaining_length r ≤ max_log_length
    → IsPlain r
    → let (reply, w) = append fine (fresh_writer threshold max_seg_size mode) r in
      (reply ≡ ok 1)
      × (rd : Option Reader) × (open_reader w.sm ≡ some rd)
      × ((fuel : ℕ) → read_all decode_end_checkpoint fuel w.sm rd ≡ none)
oversized_first_record_loops decode_end_checkpoint threshold max_seg_size mode r h op limit plain =
    let (rd, opened, never) =
      never_read decode_end_checkpoint (first threshold max_seg_size mode r h).sm
        (segment_file_name 1) (numbered 1 r) (twice threshold max_seg_size mode r h)
        (held threshold max_seg_size mode r h)
        (record {
          fits = record { lsn_fits = omega arith; op_fits = op; length_fits = omega arith };
          limit = limit;
        })
        (record { not_begin = plain.not_begin; not_end = plain.not_end }) in
    (accepted threshold max_seg_size mode r h, rd, opened, never)
