-- ===== src/Durable/Wal/Writer/Logs.antt =====
-- durable-mq/wal/writer.go: the segments and the files after the appends.
use simon_mq.Base.{
  ℕ, ◌+◌, ◌^◌, ◌<◌, ◌≡◌, refl, ◌∙◌, sym, ap, inl, inr, true, false, some, List, [], ◌∷◌, ◌++◌,
  arith, GoString, str_eq, length, Bool-cases,
}
use mathlib.Core.List.{append_assoc, append-nil}
use simon_mq.Dict.{get, has, put}
use simon_mq.Dict.Laws.{get-put}
use simon_mq.Durable.Record.{Record, encode}
use simon_mq.Durable.Wal.Scan.Recover.{file_of}
use simon_mq.Durable.Wal.Names.{segment_file_name, has_suffix, wal_suffix}
use simon_mq.Durable.Wal.Names.RoundTrip.{segment_file_name-ne_sym}
use simon_mq.Durable.Wal.Segments.{Files, names_with}
use simon_mq.Durable.Wal.Writer.{Writer}
use simon_mq.Durable.Wal.Reader.Segs.{
  Seg, GoodFrom, Closed, Closed-le, FilesHold, names_of, records_of,
}

pub names_of-append :
    (segs : List Seg) (s : Seg)
    → names_of (segs ++ s ∷ []) ≡ names_of segs ++ segment_file_name s.first ∷ []
names_of-append [] s = refl
names_of-append (x ∷ segs) s =
    ap (λ names. segment_file_name x.first ∷ names) (names_of-append segs s)

pub records_of-append :
    (segs : List Seg) (s : Seg) → records_of (segs ++ s ∷ []) ≡ records_of segs ++ s.records
records_of-append [] s = append-nil s.records
records_of-append (x ∷ segs) s =
    ap (λ rs. x.records ++ rs) (records_of-append segs s)
    ∙ sym (append_assoc x.records (records_of segs) s.records)

pub file_of-append :
    (rs : List Record) (r : Record) → file_of (rs ++ r ∷ []) ≡ file_of rs ++ encode r
unfolding file_of
file_of-append [] r = append-nil (encode r)
file_of-append (x ∷ rs) r =
    ap (λ bs. encode x ++ bs) (file_of-append rs r)
    ∙ sym (append_assoc (encode x) (file_of rs) (encode r))

-- A write at a larger number leaves the files of the segments.
pub FilesHold-put :
    (files : Files) (n m : ℕ) (segs : List Seg) (bytes : List ℕ)
    → Closed n segs m
    → m < 2 ^ 64
    → FilesHold files segs
    → FilesHold (put files (segment_file_name m) bytes) segs
FilesHold-put files n m [] bytes c h f = tt
FilesHold-put files n m (s ∷ segs) bytes c h f =
    let le = Closed-le (n + length s.records) m segs c.3 in
    let apart : str_eq (segment_file_name m) (segment_file_name s.first) ≡ false =
      segment_file_name-ne_sym s.first m (omega (arith, c.0, c.2)) h (omega (arith, c.0, c.2)) in
    (
      ground (
        arith,
        get-put files (segment_file_name m) (segment_file_name s.first) bytes,
        apart,
        f.0,
      ),
      FilesHold-put files (n + length s.records) m segs bytes c.3 h f.1,
    )

pub FilesHold-append :
    (files : Files) (segs : List Seg) (s : Seg)
    → FilesHold files segs
    → get files (segment_file_name s.first) ≡ some (file_of s.records)
    → FilesHold files (segs ++ s ∷ [])
FilesHold-append files [] s f e = (e, tt)
FilesHold-append files (x ∷ segs) s f e = (f.0, FilesHold-append files segs s f.1 e)

module _ (suffix : GoString) where
  pub names_with-put_present :
      (files : Files) (name : GoString) (bytes : List ℕ)
      → has files name ≡ true
      → names_with suffix (put files name bytes) ≡ names_with suffix files
  unfolding put has get
  names_with-put_present [] name bytes e = absurd cc
  names_with-put_present ((n, b) ∷ files) name bytes e = elim (Bool-cases (str_eq n name)) [
    | inl f ↦ rw f refl
    | inr f ↦ rw (f, names_with-put_present files name bytes (rw f at e)) refl
  ]

  pub names_with-put_absent :
      (files : Files) (name : GoString) (bytes : List ℕ)
      → has_suffix name suffix ≡ true
      → has files name ≡ false
      → names_with suffix (put files name bytes) ≡ names_with suffix files ++ name ∷ []
  unfolding put has get
  names_with-put_absent [] name bytes s e = rw s refl
  names_with-put_absent ((n, b) ∷ files) name bytes s e = elim (Bool-cases (str_eq n name)) [
    | inl f ↦ absurd (cc (rw f at e))
    | inr f ↦ elim (Bool-cases (has_suffix n suffix)) [
      | inl g ↦ rw (f, g, names_with-put_absent files name bytes s (rw f at e)) refl
      | inr g ↦ rw (f, g, names_with-put_absent files name bytes s (rw f at e)) refl
    ]
  ]

-- The writer and its directory hold the records of the closed segments and of the last one, which are
-- numbered from 1 on.
pub record IsLog (w : Writer) (closed : List Seg) (last : Seg) : Type 0 where
  pub names : w.sm.segments ≡ names_of closed ++ segment_file_name last.first ∷ []
  pub listed : names_with wal_suffix w.sm.files ≡ w.sm.segments
  pub files : FilesHold w.sm.files closed
  pub last_file : get w.sm.files (segment_file_name last.first) ≡ some (file_of last.records)
  pub file : w.file ≡ segment_file_name last.first
  pub runs : Closed 1 closed last.first
  pub good : GoodFrom last.first last.records
  pub next : w.next_lsn ≡ last.first + length last.records
  pub size : w.current_size ≡ length (file_of last.records)
  pub free : (n : ℕ) → last.first < n → n < 2 ^ 64 → has w.sm.files (segment_file_name n) ≡ false

-- The records of a log.
abbrev pub logged : List Seg → Seg → List Record
logged closed last = records_of closed ++ last.records

pub has_file :
    {w : Writer} {closed : List Seg} {last : Seg}
    → IsLog w closed last
    → has w.sm.files w.file ≡ true
unfolding has
has_file {w} {last} h = rw (ap (get w.sm.files) h.file ∙ h.last_file) refl

-- The log after an append.
abbrev pub Extended : Writer → List Seg → Seg → Record → Writer → Type 0
Extended w closed last r w' =
    (closed' : List Seg) × (last' : Seg) × IsLog w' closed' last'
    × (logged closed' last' ≡ logged closed last ++ r ∷ [])
