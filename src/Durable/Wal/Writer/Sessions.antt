-- ===== src/Durable/Wal/Writer/Sessions.antt =====
-- durable-mq/wal: any number of processes that append and die, one after the other, on one directory.
use simon_mq.Base.{
  ℕ, suc, ◌+◌, ◌^◌, ◌<◌, ◌≤◌, ◌≡◌, refl, ◌∙◌, sym, ap, subst, inl, inr, some, List, [], ◌∷◌, ◌++◌,
  arith, length, length-append, take, ltb, Bool-cases,
}
use mathlib.Core.List.{append_assoc, append-nil}
use simon_mq.Durable.Record.{Record, encode, remaining_length}
use simon_mq.Durable.Wal.Scan.{max_log_length}
use simon_mq.Durable.Wal.Scan.Recover.{Writable, round-torn, length-encode}
use simon_mq.Durable.Wal.Segments.{new_segment_manager_with_threshold}
use simon_mq.Durable.Wal.Writer.{
  Writer, fine, write_fails, append, numbered, open_writer, roll_segment, append_all, Session,
  crashed_files, run_sessions,
}
use simon_mq.Durable.Wal.Writer.Logs.{IsLog, logged}
use simon_mq.Durable.Wal.Writer.Appends.{append-Extended}
use simon_mq.Durable.Wal.Writer.Restart.{crash_lem}
use simon_mq.Durable.Wal.Writer.Survives.{restart_lem}
use simon_mq.Durable.Wal.Reader.Segs.{Seg, Closed, records_of}
use simon_mq.Durable.Wal.Reader.Reads.{IsPlain}

-- A record that an append stores in one segment and that is no mark of a checkpoint.
pub record Storable (max_seg_size : ℕ) (r : Record) : Type 0 where
  pub op_fits : r.op_type < 256
  pub limit : remaining_length r ≤ max_log_length
  pub room : remaining_length r + 12 ≤ max_seg_size
  pub plain : IsPlain r

abbrev pub AllStorable : ℕ → List Record → Type 0
AllStorable m [] = Unit
AllStorable m (r ∷ rs) = Storable m r × AllStorable m rs

pub numbered-Writable : (m n : ℕ) (r : Record) → Storable m r → n < 2 ^ 64 → Writable (numbered n r)
numbered-Writable m n r s h = record {
  fits = record { lsn_fits = h; op_fits = s.op_fits; length_fits = omega (arith, s.limit) };
  limit = s.limit;
}

abbrev pub numbered_from : ℕ → List Record → List Record
numbered_from n [] = []
numbered_from n (r ∷ rs) = numbered n r ∷ numbered_from (n + 1) rs

pub numbered_from-append :
    (n : ℕ) (xs ys : List Record)
    → numbered_from n (xs ++ ys) ≡ numbered_from n xs ++ numbered_from (n + length xs) ys
numbered_from-append n [] ys = ap (λ i. numbered_from i ys) (omega arith)
numbered_from-append n (x ∷ xs) ys =
    ap (λ rs. numbered n x ∷ rs)
      (numbered_from-append (n + 1) xs ys
        ∙ ap (λ i. numbered_from (n + 1) xs ++ numbered_from i ys) (omega arith))

append-max_seg_size : (w : Writer) (r : Record) → (append fine w r).1.max_seg_size ≡ w.max_seg_size
unfolding append roll_segment
append-max_seg_size w r =
    elim (Bool-cases
      (ltb w.max_seg_size (w.current_size + length (encode (numbered w.next_lsn r))))) [
        | inl e ↦ rw e refl
        | inr e ↦ rw e refl
      ]

Closed-length : (n m : ℕ) (segs : List Seg) → Closed n segs m → m ≡ n + length (records_of segs)
Closed-length n m [] c = omega (arith, c)
Closed-length n m (s ∷ segs) c = omega (
  arith,
  Closed-length (n + length s.records) m segs c.3,
  length-append s.records (records_of segs),
)

-- A log holds exactly these records, and its segments take this many bytes.
pub record Logs (w : Writer) (m : ℕ) (rs : List Record) : Type 0 where
  pub closed : List Seg
  pub last : Seg
  pub log : IsLog w closed last
  pub all : logged closed last ≡ numbered_from 1 rs
  pub next : w.next_lsn ≡ 1 + length rs
  pub size : w.max_seg_size ≡ m

pub length-numbered_from : (n : ℕ) (rs : List Record) → length (numbered_from n rs) ≡ length rs
length-numbered_from n [] = refl
length-numbered_from n (r ∷ rs) = ap suc (length-numbered_from (n + 1) rs)

pub next_lem :
    (w : Writer) (closed : List Seg) (last : Seg) (rs : List Record)
    → IsLog w closed last
    → logged closed last ≡ numbered_from 1 rs
    → w.next_lsn ≡ 1 + length rs
next_lem w closed last rs h e = omega (
  arith,
  h.next,
  Closed-length 1 last.first closed h.runs,
  ap length e,
  length-append (records_of closed) last.records,
  length-numbered_from 1 rs,
)

append-Logs :
    (w : Writer) (m : ℕ) (rs : List Record) (r : Record)
    → Logs w m rs
    → Storable m r
    → 2 + length rs < 2 ^ 64
    → Logs (append fine w r).1 m (rs ++ r ∷ [])
append-Logs w m rs r l s bound =
    let v = numbered-Writable m w.next_lsn r s (omega (arith, l.next)) in
    let (accepted, (closed, last, log, all)) =
      append-Extended w l.closed l.last r l.log v (omega (arith, l.next))
        (omega (arith, length-encode (numbered w.next_lsn r), s.room, l.size)) in
    let together : logged closed last ≡ numbered_from 1 (rs ++ r ∷ []) =
      all
      ∙ (ap (λ xs. xs ++ numbered w.next_lsn r ∷ []) l.all
          ∙ (ap (λ i. numbered_from 1 rs ++ numbered i r ∷ []) l.next
              ∙ sym (numbered_from-append 1 rs (r ∷ [])))) in
    record {
      closed = closed;
      last = last;
      log = log;
      all = together;
      next = next_lem (append fine w r).1 closed last (rs ++ r ∷ []) log together;
      size = append-max_seg_size w r ∙ l.size;
    }

append_all-Logs :
    (w : Writer) (m : ℕ) (old rs : List Record)
    → Logs w m old
    → AllStorable m rs
    → 1 + length (old ++ rs) < 2 ^ 64
    → Logs (append_all w rs) m (old ++ rs)
unfolding append_all
append_all-Logs w m old [] l s bound = subst (Logs w m) (sym (append-nil old)) l
append_all-Logs w m old (r ∷ rs) l s bound =
    let same : (old ++ r ∷ []) ++ rs ≡ old ++ r ∷ rs = append_assoc old (r ∷ []) rs in
    let first = append-Logs w m old r l s.0 (omega (arith, length-append old (r ∷ rs))) in
    subst (Logs (append_all (append fine w r).1 rs) m) same (
      append_all-Logs (append fine w r).1 m (old ++ r ∷ []) rs first s.1
        (omega (arith, ap length same)))

-- A session: the cut record fits, and not all of its bytes are written.
pub record SessionFits (m : ℕ) (s : Session) : Type 0 where
  pub records : AllStorable m s.records
  pub cut : Storable m s.cut
  pub written : s.written < remaining_length s.cut + 12

abbrev pub AllFit : ℕ → List Session → Type 0
AllFit m [] = Unit
AllFit m (s ∷ sessions) = SessionFits m s × AllFit m sessions

-- The records whose appends succeeded, in all sessions.
abbrev pub stored : List Session → List Record
stored [] = []
stored (s ∷ sessions) = s.records ++ stored sessions

pub session_lem :
    (threshold m : ℕ) (w : Writer) (old : List Record) (s : Session)
    → Logs w m old
    → SessionFits m s
    → 1 + length (old ++ s.records) < 2 ^ 64
    → (w' : Writer) × (open_writer
          (new_segment_manager_with_threshold (crashed_files w s) threshold)
          w.max_seg_size
          w.mode
        ≡ some w')
      × Logs w' m (old ++ s.records)
unfolding crashed_files
session_lem threshold m w old s l f bound =
    let w1 = append_all w s.records in
    let l1 = append_all-Logs w m old s.records l f.records bound in
    let cut = numbered w1.next_lsn s.cut in
    let (closed, last, disk, all) =
      crash_lem w1 l1.closed l1.last s.cut s.written l1.log (omega (arith, l1.next))
        (omega (arith, length-encode cut, f.cut.room, l1.size)) in
    let v = numbered-Writable m w1.next_lsn s.cut f.cut (omega (arith, l1.next)) in
    let (w', opened, log, size) =
      restart_lem (append (write_fails s.written) w1 s.cut).1.sm.files closed last
        (take s.written (encode cut)) threshold w.max_seg_size w.mode disk
        (round-torn cut s.written (omega (arith, length-encode cut, f.written)) v.fits) in
    let together = all ∙ l1.all in
    (
      w',
      opened,
      record {
        closed = closed;
        last = last;
        log = log;
        all = together;
        next = next_lem w' closed last (old ++ s.records) log together;
        size = size ∙ l.size;
      },
    )

pub sessions_lem :
    (threshold m : ℕ) (w : Writer) (old : List Record) (sessions : List Session)
    → Logs w m old
    → AllFit m sessions
    → 1 + length (old ++ stored sessions) < 2 ^ 64
    → (w' : Writer) × (run_sessions threshold w sessions ≡ some w')
      × Logs w' m (old ++ stored sessions)
unfolding run_sessions
sessions_lem threshold m w old [] l f bound = (w, refl, subst (Logs w m) (sym (append-nil old)) l)
sessions_lem threshold m w old (s ∷ sessions) l f bound =
    let same : (old ++ s.records) ++ stored sessions ≡ old ++ (s.records ++ stored sessions) =
      append_assoc old s.records (stored sessions) in
    let (w1, opened, l1) =
      session_lem threshold m w old s l f.0 (
        omega (arith, ap length same, bound, length-append (old ++ s.records) (stored sessions))) in
    let (w2, ran, l2) =
      sessions_lem threshold m w1 (old ++ s.records) sessions l1 f.1
        (omega (arith, ap length same)) in
    (w2, rw (opened, ran) refl, subst (Logs w2 m) same l2)
