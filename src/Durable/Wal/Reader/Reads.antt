-- ===== src/Durable/Wal/Reader/Reads.antt =====
-- durable-mq/wal/reader.go: what the reader returns of a log without checkpoints.
use simon_mq.Base.{
  ℕ, zero, suc, ◌+◌, ◌≤◌, ◌≡◌, ◌==◌, refl, ◌∙◌, ap, false, Option, none, some, List, [], ◌∷◌, ◌++◌,
  arith, GoString, length, ltb_of_le,
}
use mathlib.Core.List.{append_assoc, append-nil}
use simon_mq.Dict.{get}
use simon_mq.Durable.Record
use simon_mq.Durable.Record.{Record, encode, remaining_length}
use simon_mq.Durable.Wal.Scan.{max_log_length, read_full}
use simon_mq.Durable.Wal.Scan.Recover.{
  Writable, file_of, header, remaining, length-header, encode-split, size_of_header,
  length-remaining, decode-whole, read_full-append,
}
use simon_mq.Durable.Wal.Names.{segment_file_name}
use simon_mq.Durable.Wal.Segments.{SegmentManager, segment_after}
use simon_mq.Durable.Wal.Reader.{
  got, moved, ended, turn, EndCheckpoint, Progress, start, note_checkpoint, read, read_loop,
  read_all,
}
use simon_mq.Durable.Wal.Reader.Segs.{Seg, FilesHold, Linked, records_of}

-- A record that is no mark of a checkpoint.
pub record IsPlain (r : Record) : Type 0 where
  pub not_begin : (r.op_type == Record.op_begin_checkpoint) ≡ false
  pub not_end : (r.op_type == Record.op_end_checkpoint) ≡ false

abbrev pub AllPlain : List Record → Type 0
AllPlain [] = Unit
AllPlain (r ∷ rs) = IsPlain r × AllPlain rs

pub record IsReadable (r : Record) : Type 0 where
  pub writable : Writable r
  pub plain : IsPlain r

abbrev pub AllReadable : List Record → Type 0
AllReadable [] = Unit
AllReadable (r ∷ rs) = IsReadable r × AllReadable rs

AllReadable-left : (xs ys : List Record) → AllReadable (xs ++ ys) → AllReadable xs
AllReadable-left [] ys h = tt
AllReadable-left (x ∷ xs) ys h = (h.0, AllReadable-left xs ys h.1)

AllReadable-right : (xs ys : List Record) → AllReadable (xs ++ ys) → AllReadable ys
AllReadable-right [] ys h = h
AllReadable-right (x ∷ xs) ys h = AllReadable-right xs ys h.1

-- A whole record at the front of the rest is read.
pub turn-encode :
    (sm : SegmentManager) (name : GoString) (r : Record) (rest : List ℕ)
    → Writable r
    → turn sm (record { current = name; rest = encode r ++ rest })
      ≡ got r (record { current = name; rest = rest })
unfolding turn
turn-encode sm name r rest w =
    rw
      (
        encode-split r,
        append_assoc (header r),
        read_full-append 12 (header r) (remaining r ++ rest) (length-header r),
        size_of_header r w.fits,
        ltb_of_le max_log_length (remaining_length r) w.limit,
        read_full-append (remaining_length r) (remaining r) rest (length-remaining r),
        decode-whole r w.fits,
      )
      refl

turn_last :
    (sm : SegmentManager) (name : GoString)
    → segment_after sm name ≡ none
    → turn sm (record { current = name; rest = [] }) ≡ ended
unfolding turn read_full
turn_last sm name e = rw e refl

pub turn_next :
    (sm : SegmentManager) (name next : GoString) (bytes : List ℕ)
    → segment_after sm name ≡ some next
    → get sm.files next ≡ some bytes
    → turn sm (record { current = name; rest = [] })
      ≡ moved (record { current = next; rest = bytes })
unfolding turn read_full
turn_next sm name next bytes e f = rw (e, f) refl

-- The rounds that reading `rs` and then the segments takes.
abbrev pub rounds : List Seg → ℕ
rounds [] = 0
rounds (s ∷ segs) = length s.records + 1 + rounds segs

abbrev pub cost : List Record → List Seg → ℕ
cost rs segs = length rs + 1 + rounds segs

module _ (decode_end_checkpoint : List ℕ → Option EndCheckpoint) (sm : SegmentManager) where
  pub note-plain :
      (p : Progress) (r : Record) → IsPlain r → note_checkpoint decode_end_checkpoint p r ≡ some p
  unfolding note_checkpoint
  note-plain p r h = rw (h.not_begin, h.not_end) refl

  abbrev pub at : List Record → Progress
  at rs = record (start sm) { records = rs }

  -- From the rest of one segment through all the others.
  read_lem :
      (fuel : ℕ) (acc : List Record) (seg : Seg) (rs : List Record) (segs : List Seg)
      → Linked sm.segments (seg ∷ segs)
      → FilesHold sm.files segs
      → AllReadable rs
      → AllReadable (records_of segs)
      → cost rs segs ≤ fuel
      → read_loop decode_end_checkpoint
          (λ r. false)
          fuel
          (at acc)
          (record { current = segment_file_name seg.first; rest = file_of rs })
        ≡ some (read (at (acc ++ (rs ++ records_of segs))))
  unfolding read_loop file_of
  read_lem zero acc seg [] [] l f g h le = absurd (omega arith)
  read_lem zero acc seg [] (s ∷ segs) l f g h le = absurd (omega arith)
  read_lem zero acc seg (r ∷ rs) [] l f g h le = absurd (omega arith)
  read_lem zero acc seg (r ∷ rs) (s ∷ segs) l f g h le = absurd (omega arith)
  read_lem (suc fuel) acc seg [] [] l f g h le =
      rw (turn_last sm (segment_file_name seg.first) (unfold segment_after in l), read_loop)
        (rw (append-nil acc) refl)
  read_lem (suc fuel) acc seg [] (s ∷ segs) l f g h le =
      rw
        (
          turn_next sm (segment_file_name seg.first) (segment_file_name s.first) (file_of s.records)
              (unfold segment_after in l.0) f.0,
          read_loop,
        )
        (read_lem fuel acc s s.records segs l.1 f.1 (AllReadable-left s.records (records_of segs) h)
          (AllReadable-right s.records (records_of segs) h) (omega arith))
  read_lem (suc fuel) acc seg (r ∷ rs) segs l f g h le =
      rw
        (
          turn-encode sm (segment_file_name seg.first) r (file_of rs) g.0.writable,
          note-plain (at acc) r g.0.plain,
          read_loop,
        )
        (read_lem fuel (acc ++ r ∷ []) seg rs segs l f g.1 h (omega arith)
          ∙ ap (λ x. some (read (at x))) (append_assoc acc (r ∷ []) (rs ++ records_of segs)))

  -- A reader that starts with the first segment returns the records of all of them.
  pub read_all_lem :
      (fuel : ℕ) (s : Seg) (segs : List Seg)
      → Linked sm.segments (s ∷ segs)
      → FilesHold sm.files segs
      → AllReadable (records_of (s ∷ segs))
      → rounds (s ∷ segs) ≤ fuel
      → read_all decode_end_checkpoint fuel sm
          (some (record { current = segment_file_name s.first; rest = file_of s.records }))
        ≡ some (read (at (records_of (s ∷ segs))))
  unfolding read_all
  read_all_lem fuel s segs l f h le =
      read_lem fuel [] s s.records segs l f (AllReadable-left s.records (records_of segs) h)
        (AllReadable-right s.records (records_of segs) h) le
