-- ===== src/Durable/Wal/Writer/Reading.antt =====
-- durable-mq/wal: what a reader returns of the log that the sessions have left.
use simon_mq.Base.{
  ℕ, ◌+◌, ◌*◌, ◌^◌, ◌<◌, ◌≤◌, ◌≡◌, refl, ◌∙◌, sym, ap, subst, Option, some, List, [], ◌∷◌, ◌++◌,
  arith, length, length-append,
}
use mathlib.Core.List.{append_assoc}
use simon_mq.Durable.Record.{Record}
use simon_mq.Durable.Wal.Scan.Recover.{file_of}
use simon_mq.Durable.Wal.Names.{segment_file_name}
use simon_mq.Durable.Wal.Segments.{SegmentManager}
use simon_mq.Durable.Wal.Writer.{Writer}
use simon_mq.Durable.Wal.Writer.Logs.{logged, FilesHold-append, names_of-append, records_of-append}
use simon_mq.Durable.Wal.Reader.{EndCheckpoint, Reader, open_reader, read, read_all}
use simon_mq.Durable.Wal.Reader.Segs.{
  Seg, Closed, Closed-Linked, FilesHold, Linked, names_of, records_of,
}
use simon_mq.Durable.Wal.Reader.Reads.{AllReadable, rounds, at, read_all_lem}
use simon_mq.Durable.Wal.Writer.Sessions.{
  AllStorable, numbered-Writable, numbered_from, Logs, length-numbered_from,
}

AllReadable-append :
    (xs ys : List Record) → AllReadable xs → AllReadable ys → AllReadable (xs ++ ys)
AllReadable-append [] ys g h = h
AllReadable-append (x ∷ xs) ys g h = (g.0, AllReadable-append xs ys g.1 h)

numbered_from-AllReadable :
    (m n : ℕ) (rs : List Record)
    → AllStorable m rs
    → n + length rs < 2 ^ 64
    → AllReadable (numbered_from n rs)
numbered_from-AllReadable m n [] s h = tt
numbered_from-AllReadable m n (r ∷ rs) s h = (
  record {
    writable = numbered-Writable m n r s.0 (omega arith);
    plain = record { not_begin = s.0.plain.not_begin; not_end = s.0.plain.not_end };
  },
  numbered_from-AllReadable m (n + 1) rs s.1 (omega arith),
)

-- Each closed segment has a record, so twice the number of the records bounds the rounds.
rounds-le :
    (n m : ℕ) (closed : List Seg) (last : Seg)
    → Closed n closed m
    → rounds (closed ++ last ∷ []) ≤ 2 * length (logged closed last) + 1
rounds-le n m [] last c = omega arith
rounds-le n m (s ∷ closed) last c = omega (
  arith,
  c.2,
  rounds-le (n + length s.records) m closed last c.3,
  ap length (append_assoc s.records (records_of closed) last.records),
  length-append s.records (records_of closed ++ last.records),
)

opened_lem :
    (sm : SegmentManager) (s : Seg) (segs : List Seg)
    → sm.segments ≡ names_of (s ∷ segs)
    → FilesHold sm.files (s ∷ segs)
    → open_reader sm
      ≡ some (some (record { current = segment_file_name s.first; rest = file_of s.records }))
unfolding open_reader
opened_lem sm s segs e f = rw (e, f.0) refl

module _ (decode_end_checkpoint : List ℕ → Option EndCheckpoint) where
  reads_lem :
      (w : Writer) (segs : List Seg) (fuel : ℕ) (rs : List Record)
      → w.sm.segments ≡ names_of segs
      → FilesHold w.sm.files segs
      → Linked (names_of segs) segs
      → 0 < length segs
      → records_of segs ≡ rs
      → AllReadable rs
      → rounds segs ≤ fuel
      → (rd : Option Reader) × (open_reader w.sm ≡ some rd)
        × (read_all decode_end_checkpoint fuel w.sm rd
            ≡ some (read (at decode_end_checkpoint w.sm rs)))
  reads_lem w [] fuel rs e f l some_seg all h le = absurd (omega arith)
  reads_lem w (s ∷ segs) fuel rs e f l some_seg all h le = (
    some (record { current = segment_file_name s.first; rest = file_of s.records }),
    opened_lem w.sm s segs e f,
    read_all_lem decode_end_checkpoint w.sm fuel s segs
          (subst (λ names. Linked names (s ∷ segs)) (sym e) l) f.1 (subst AllReadable (sym all) h)
          le
        ∙ ap (λ xs. some (read (at decode_end_checkpoint w.sm xs))) all,
  )

  pub read-Logs :
      (w : Writer) (m : ℕ) (rs : List Record)
      → Logs w m rs
      → AllStorable m rs
      → 1 + length rs < 2 ^ 64
      → (rd : Option Reader) × (open_reader w.sm ≡ some rd)
        × (read_all decode_end_checkpoint (2 * length rs + 1) w.sm rd
            ≡ some (read (at decode_end_checkpoint w.sm (numbered_from 1 rs))))
  read-Logs w m rs l s bound =
      reads_lem w (l.closed ++ l.last ∷ []) (2 * length rs + 1) (numbered_from 1 rs)
        (l.log.names ∙ sym (names_of-append l.closed l.last))
        (FilesHold-append w.sm.files l.closed l.last l.log.files l.log.last_file)
        (Closed-Linked 1 l.last.first l.closed l.last l.log.runs refl
          (omega (arith, l.log.next, l.next)))
        (omega (arith, length-append l.closed (l.last ∷ [])))
        (records_of-append l.closed l.last ∙ l.all) (numbered_from-AllReadable m 1 rs s bound)
        (omega (
          arith,
          rounds-le 1 l.last.first l.closed l.last l.log.runs,
          ap length l.all,
          length-numbered_from 1 rs,
        ))
