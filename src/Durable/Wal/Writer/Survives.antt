-- ===== src/Durable/Wal/Writer/Survives.antt =====
-- durable-mq/wal: the next start on the directory that a crash has left, and the reads after it.
use simon_mq.Base.{
  ℕ, suc, ◌+◌, ◌%◌, ◌^◌, ◌<◌, ◌≡◌, refl, ◌∙◌, sym, ap, some, List, [], ◌∷◌, ◌++◌, arith, GoString,
  length, length-append, take-append, le→leb, sort, insert_sorted, str_lt,
}
use native.Mathlib.Nat.{mod-eq_of_lt}
use simon_mq.Dict.{has, put}
use simon_mq.Dict.Laws.{get-put_self, has-put}
use simon_mq.Durable.Record.{Record}
use simon_mq.Durable.Wal.Scan.{scanned, scan_segment, stop, round}
use simon_mq.Durable.Wal.Scan.Recover.{Writable, All, file_of, scan_loop-file}
use simon_mq.Durable.Wal.Names.{segment_file_name, first_lsn, wal_suffix}
use simon_mq.Durable.Wal.Names.RoundTrip.{segment_file_name-ne, first_lsn-segment_file_name}
use simon_mq.Durable.Wal.Names.Order.{str_lt-segment_file_name}
use simon_mq.Durable.Wal.Segments.{
  Files, names_with, new_segment_manager_with_threshold, refresh, last_of, lsn_after,
  truncate_segment, recover, resized,
}
use simon_mq.Durable.Wal.Writer.{Writer, Mode, open_writer}
use simon_mq.Durable.Wal.Writer.Logs.{IsLog, FilesHold-put, names_with-put_present}
use simon_mq.Durable.Wal.Reader.Segs.{Seg, GoodFrom, Closed, Closed-le, names_of}
use simon_mq.Durable.Wal.Writer.Restart.{OnDisk}

-- The segments are found in the order of their numbers.
sort_lem :
    (n m : ℕ) (closed : List Seg) (last : ℕ)
    → Closed n closed m
    → last ≡ m
    → m < 2 ^ 64
    → sort str_lt (names_of closed ++ segment_file_name last ∷ [])
      ≡ names_of closed ++ segment_file_name last ∷ []
unfolding sort insert_sorted
sort_lem n m [] last c e h = refl
sort_lem n m (s ∷ []) last c e h =
    rw (str_lt-segment_file_name s.first last (omega (arith, c)) (omega (arith, e))) refl
sort_lem n m (s ∷ t ∷ closed) last c e h =
    rw
      (
        sort_lem (n + length s.records) m (t ∷ closed) last c.3 e h,
        str_lt-segment_file_name s.first t.first (omega (arith, c.0, c.3.0))
            (omega (arith, c.3.0, Closed-le (n + length s.records) m (t ∷ closed) c.3)),
      )
      refl

last_of-append : (xs : List GoString) (x : GoString) → last_of (xs ++ x ∷ []) ≡ some x
unfolding last_of
last_of-append [] x = refl
last_of-append (y ∷ []) x = refl
last_of-append (y ∷ z ∷ xs) x = last_of-append (z ∷ xs) x

lsn_after-cons :
    (a b : ℕ) (r : Record) (rs : List Record) → lsn_after a (r ∷ rs) ≡ lsn_after b (r ∷ rs)
lsn_after-cons a b r [] = refl
lsn_after-cons a b r (s ∷ rs) = lsn_after-cons a b s rs

lsn_after_lem :
    (n : ℕ) (rs : List Record)
    → GoodFrom n rs
    → n + length rs < 2 ^ 64
    → lsn_after n rs ≡ n + length rs
lsn_after_lem n [] g h = omega arith
lsn_after_lem n (r ∷ []) g h =
    ap (λ l. (l + 1) % 2 ^ 64) g.0 ∙ mod-eq_of_lt {n = n + 1} {m = 2 ^ 64} (omega arith)
lsn_after_lem n (r ∷ s ∷ rs) g h =
    lsn_after-cons n (n + 1) s rs ∙ (lsn_after_lem (n + 1) (s ∷ rs) g.2 (omega arith) ∙ omega arith)

GoodFrom-Writable : (n : ℕ) (rs : List Record) → GoodFrom n rs → All Writable rs
unfolding All
GoodFrom-Writable n [] g = tt
GoodFrom-Writable n (r ∷ rs) g = (g.1, GoodFrom-Writable (n + 1) rs g.2)

-- The next start finds the segments, cuts the torn bytes off, and goes on with the next number.
pub restart_lem :
    (files : Files) (closed : List Seg) (last : Seg) (torn : List ℕ) (threshold max_seg_size : ℕ)
    (mode : Mode)
    → OnDisk files closed last torn
    → round torn ≡ stop
    → (w : Writer) × (open_writer
          (new_segment_manager_with_threshold files threshold)
          max_seg_size
          mode
        ≡ some w)
      × IsLog w closed last
      × (w.max_seg_size ≡ max_seg_size)
unfolding open_writer new_segment_manager_with_threshold refresh recover truncate_segment
restart_lem files closed last torn threshold max_seg_size mode d t =
    let name = segment_file_name last.first in
    let good = GoodFrom-Writable last.first last.records d.good in
    let scan : scan_segment (file_of last.records ++ torn)
        ≡ some (scanned last.records (length (file_of last.records))) =
      unfold scan_segment in
      scan_loop-file (suc (length (file_of last.records ++ torn))) last.records torn good
        (omega arith) t in
    let listed : sort str_lt (names_with wal_suffix files) ≡ names_of closed ++ name ∷ [] =
      ap (sort str_lt) d.listed
      ∙ sort_lem 1 last.first closed last.first d.runs refl (omega (arith, d.bound)) in
    let last_name : last_of (sort str_lt (names_with wal_suffix files)) ≡ some name =
      ap last_of listed ∙ last_of-append (names_of closed) name in
    let cut : resized (length (file_of last.records)) (file_of last.records ++ torn)
        ≡ file_of last.records =
      rw
        (le→leb (length (file_of last.records)) (length (file_of last.records ++ torn))
          (omega (arith, length-append (file_of last.records) torn)))
        (take-append (length (file_of last.records)) (file_of last.records) torn refl) in
    let found : first_lsn name ≡ some last.first =
      first_lsn-segment_file_name last.first (omega (arith, d.bound)) in
    let sm = new_segment_manager_with_threshold files threshold in
    (
      record {
        sm = record sm { files = put files name (file_of last.records) };
        file = name;
        current_size = length (file_of last.records);
        max_seg_size = max_seg_size;
        next_lsn = lsn_after last.first last.records;
        mode = mode;
      },
      rw (last_name, d.last_file, scan, found, d.last_file, cut) refl,
      record {
        names = listed;
        listed =
            names_with-put_present wal_suffix files name (file_of last.records)
              (unfold has in rw d.last_file refl)
            ∙ (d.listed ∙ sym listed);
        files =
            FilesHold-put files 1 last.first closed (file_of last.records) d.runs
              (omega (arith, d.bound)) d.held;
        last_file = get-put_self files name (file_of last.records);
        file = refl;
        runs = d.runs;
        good = d.good;
        next = lsn_after_lem last.first last.records d.good d.bound;
        size = refl;
        free = λ n lt b. ground (
          arith,
          has-put files name (segment_file_name n) (file_of last.records),
          segment_file_name-ne last.first n (omega (arith, d.bound)) b lt,
          d.free n lt b,
        );
      },
      refl,
    )
