-- ===== src/Durable/Wal/Reader/Segs.antt =====
-- durable-mq/wal: the segments of a log as lists of records, and the order in which a reader goes
-- through them.
use simon_mq.Base.{
  ℕ, ◌+◌, ◌^◌, ◌<◌, ◌≤◌, ◌≡◌, refl, ◌∙◌, sym, subst, none, some, List, [], ◌∷◌, ◌++◌, arith,
  GoString, str_eq_refl, length,
}
use simon_mq.Dict.{get}
use simon_mq.Durable.Record.{Record}
use simon_mq.Durable.Wal.Scan.Recover.{Writable, file_of}
use simon_mq.Durable.Wal.Names.{segment_file_name}
use simon_mq.Durable.Wal.Names.RoundTrip.{segment_file_name-ne}
use simon_mq.Durable.Wal.Segments.{Files, next_after}

pub record Seg : Type 0 where
  pub first : ℕ
  pub records : List Record

abbrev pub names_of : List Seg → List GoString
names_of [] = []
names_of (s ∷ segs) = segment_file_name s.first ∷ names_of segs

abbrev pub records_of : List Seg → List Record
records_of [] = []
records_of (s ∷ segs) = s.records ++ records_of segs

-- The records are numbered from `n` on and can be written.
abbrev pub GoodFrom : ℕ → List Record → Type 0
GoodFrom n [] = Unit
GoodFrom n (r ∷ rs) = (r.lsn ≡ n) × Writable r × GoodFrom (n + 1) rs

-- Segments with records in them, from number `n` on; the next number is `m`.
abbrev pub Closed : ℕ → List Seg → ℕ → Type 0
Closed n [] m = n ≡ m
Closed n (s ∷ segs) m =
    (s.first ≡ n)
    × GoodFrom n s.records
    × (0 < length s.records)
    × Closed (n + length s.records) segs m

pub GoodFrom-append :
    (n : ℕ) (rs : List Record) (r : Record)
    → GoodFrom n rs
    → r.lsn ≡ n + length rs
    → Writable r
    → GoodFrom n (rs ++ r ∷ [])
GoodFrom-append n [] r g e w = (e ∙ omega arith, w, tt)
GoodFrom-append n (x ∷ rs) r g e w =
    (g.0, g.1, GoodFrom-append (n + 1) rs r g.2 (e ∙ omega arith) w)

pub Closed-append :
    (n m k : ℕ) (segs : List Seg) (s : Seg)
    → Closed n segs m
    → s.first ≡ m
    → GoodFrom m s.records
    → 0 < length s.records
    → m + length s.records ≡ k
    → Closed n (segs ++ s ∷ []) k
Closed-append n m k [] s c e g l t =
    (e ∙ sym c, subst (λ i. GoodFrom i s.records) (sym c) g, l, omega (arith, c))
Closed-append n m k (x ∷ segs) s c e g l t =
    (c.0, c.1, c.2, Closed-append (n + length x.records) m k segs s c.3 e g l t)

pub Closed-le : (n m : ℕ) (segs : List Seg) → Closed n segs m → n ≤ m
Closed-le n m [] c = omega arith
Closed-le n m (s ∷ segs) c = omega (arith, Closed-le (n + length s.records) m segs c.3)

abbrev pub FilesHold : Files → List Seg → Type 0
FilesHold files [] = Unit
FilesHold files (s ∷ segs) =
    (get files (segment_file_name s.first) ≡ some (file_of s.records)) × FilesHold files segs

-- The manager's list leads from each segment to the next one, and from the last one nowhere.
abbrev pub Linked : List GoString → List Seg → Type 0
Linked names [] = Unit
Linked names (s ∷ []) = next_after (segment_file_name s.first) names ≡ none
Linked names (s ∷ t ∷ segs) =
    (next_after (segment_file_name s.first) names ≡ some (segment_file_name t.first))
    × Linked names (t ∷ segs)

-- Later segments have larger numbers.
abbrev Above : ℕ → List Seg → Type 0
Above n [] = Unit
Above n (s ∷ segs) = (n < s.first) × (s.first < 2 ^ 64) × Above n segs

Closed-Above :
    (b n m : ℕ) (closed : List Seg) (last : Seg)
    → Closed n closed m
    → last.first ≡ m
    → m < 2 ^ 64
    → b < n
    → Above b (closed ++ last ∷ [])
Closed-Above b n m [] last c e h lt = (omega (arith, c, e), omega (arith, e), tt)
Closed-Above b n m (s ∷ closed) last c e h lt = (
  omega (arith, c.0),
  omega (arith, c.0, Closed-le n m (s ∷ closed) c),
  Closed-Above b (n + length s.records) m closed last c.3 e h (omega arith),
)

-- A name in front changes nothing for the segments above it.
skip_lem :
    (b : ℕ) (x : Seg) (names : List GoString) (s : Seg)
    → b < 2 ^ 64
    → b < s.first
    → s.first < 2 ^ 64
    → next_after
        (segment_file_name s.first)
        (segment_file_name b ∷ segment_file_name x.first ∷ names)
      ≡ next_after (segment_file_name s.first) (segment_file_name x.first ∷ names)
unfolding next_after
skip_lem b x names s hb lt hs = rw (segment_file_name-ne b s.first hb hs lt) refl

skip-Linked :
    (b : ℕ) (x : Seg) (names : List GoString) (segs : List Seg)
    → b < 2 ^ 64
    → Above b segs
    → Linked (segment_file_name x.first ∷ names) segs
    → Linked (segment_file_name b ∷ segment_file_name x.first ∷ names) segs
skip-Linked b x names [] hb a l = tt
skip-Linked b x names (s ∷ []) hb a l = skip_lem b x names s hb a.0 a.1 ∙ l
skip-Linked b x names (s ∷ t ∷ segs) hb a l =
    (skip_lem b x names s hb a.0 a.1 ∙ l.0, skip-Linked b x names (t ∷ segs) hb a.2 l.1)

pub Closed-Linked :
    (n m : ℕ) (closed : List Seg) (last : Seg)
    → Closed n closed m
    → last.first ≡ m
    → m < 2 ^ 64
    → Linked (names_of (closed ++ last ∷ [])) (closed ++ last ∷ [])
unfolding next_after
Closed-Linked n m [] last c e h = refl
Closed-Linked n m (s ∷ []) last c e h = (
  rw (str_eq_refl (segment_file_name s.first)) refl,
  rw
      (segment_file_name-ne s.first last.first (omega (arith, c)) (omega (arith, e))
        (omega (arith, c, e)))
      refl,
)
Closed-Linked n m (s ∷ t ∷ closed) last c e h = (
  rw (str_eq_refl (segment_file_name s.first)) refl,
  skip-Linked s.first t (names_of (closed ++ last ∷ [])) (t ∷ (closed ++ last ∷ []))
      (omega (arith, c.0, Closed-le n m (s ∷ t ∷ closed) c))
      (Closed-Above s.first (n + length s.records) m (t ∷ closed) last c.3 e h
        (omega (arith, c.0, c.2)))
      (Closed-Linked (n + length s.records) m (t ∷ closed) last c.3 e h),
)
