-- ===== src/Durable/Wal/Names/RoundTrip.antt =====
-- The number of a segment is read back from its name.
use simon_mq.Base.{
  ℕ, zero, suc, ◌+◌, ◌-◌, ◌*◌, ◌/◌, ◌%◌, ◌^◌, ◌<◌, ◌≡◌, refl, ◌∙◌, sym, ap, inl, inr, true, false,
  ◌&&◌, Option, none, some, [], ◌∷◌, ◌++◌, arith, GoString, str_eq, str_eq_refl, str_eq_iff, length,
  take-append, drop-append, length-append, leb, lt→ltb, Bool-cases,
}
use simon_mq.Durable.Wal.Names.{
  digits, wal_suffix, segment_file_name, has_suffix, trim_suffix, parse_digits, parse_uint,
  first_lsn,
}

abbrev pub ten_to : ℕ → ℕ
ten_to zero = 1
ten_to (suc k) = 10 * ten_to k

abbrev one_more : ℕ → Option ℕ → Option ℕ
one_more d none = none
one_more d (some n) = some (n * 10 + d)

parse_digits-append :
    (n d : ℕ) (s : GoString)
    → d < 10
    → parse_digits n (s ++ (48 + d) ∷ []) ≡ one_more d (parse_digits n s)
unfolding parse_digits
parse_digits-append n d [] h = ground arith
parse_digits-append n d (c ∷ s) h = elim (Bool-cases (leb 48 c && leb c 57)) [
  | inl e ↦ rw e (parse_digits-append (n * 10 + (c - 48)) d s h)
  | inr e ↦ rw e refl
]

pub parse-digits : (k n : ℕ) → n < ten_to k → parse_digits 0 (digits k n) ≡ some n
unfolding digits
parse-digits zero n h = unfold parse_digits in ap some (omega arith)
parse-digits (suc k) n h =
    parse_digits-append 0 (n % 10) (digits k (n / 10)) (omega arith)
    ∙ (ap (one_more (n % 10)) (parse-digits k (n / 10) (omega arith)) ∙ ap some (omega arith))

pub length-digits : (k n : ℕ) → length (digits k n) ≡ k
unfolding digits
length-digits zero n = refl
length-digits (suc k) n =
    omega (arith, length-append (digits k (n / 10)) ((48 + n % 10) ∷ []), length-digits k (n / 10))

pub has_suffix_append : (s suffix : GoString) → has_suffix (s ++ suffix) suffix ≡ true
has_suffix_append s suffix =
    let n : length (s ++ suffix) - length suffix ≡ length s =
      omega (arith, length-append s suffix) in
    let fits : leb (length suffix) (length (s ++ suffix)) ≡ true =
      ground (arith, length-append s suffix) in
    rw (n, fits, drop-append (length s) s suffix refl, str_eq_refl suffix) refl

trim_suffix_lem : (s suffix : GoString) → trim_suffix (s ++ suffix) suffix ≡ s
trim_suffix_lem s suffix =
    let n : length (s ++ suffix) - length suffix ≡ length s =
      omega (arith, length-append s suffix) in
    let fits : leb (length suffix) (length (s ++ suffix)) ≡ true =
      ground (arith, length-append s suffix) in
    rw (n, fits, drop-append (length s) s suffix refl, str_eq_refl suffix)
      (take-append (length s) s suffix refl)

parse_uint_lem :
    (s : GoString) (n : ℕ)
    → 0 < length s
    → parse_digits 0 s ≡ some n
    → n < 2 ^ 64
    → parse_uint s ≡ some n
parse_uint_lem [] n l e h = absurd (omega arith)
parse_uint_lem (c ∷ s) n l e h = rw e (rw (lt→ltb n (2 ^ 64) h) refl)

-- The number of a segment is read back from its name.
pub first_lsn-segment_file_name : (n : ℕ) → n < 2 ^ 64 → first_lsn (segment_file_name n) ≡ some n
unfolding first_lsn segment_file_name
first_lsn-segment_file_name n h = rw (trim_suffix_lem (digits 20 n) wal_suffix) (
    parse_uint_lem (digits 20 n) n (omega (arith, length-digits 20 n))
      (parse-digits 20 n (omega arith)) h)

-- Different segments have different names.
pub segment_file_name-ne :
    (m n : ℕ)
    → m < 2 ^ 64
    → n < 2 ^ 64
    → m < n
    → str_eq (segment_file_name m) (segment_file_name n) ≡ false
segment_file_name-ne m n h g lt =
    elim (Bool-cases (str_eq (segment_file_name m) (segment_file_name n))) [
      | inr e ↦ e
      | inl e ↦
          let same : some m ≡ some n =
            sym (first_lsn-segment_file_name m h)
            ∙ (ap first_lsn ((str_eq_iff (segment_file_name m) (segment_file_name n)).0 e)
                ∙ first_lsn-segment_file_name n g) in
          let eq : m ≡ n = cc in absurd (omega arith)
    ]

pub segment_file_name-ne_sym :
    (m n : ℕ)
    → m < 2 ^ 64
    → n < 2 ^ 64
    → m < n
    → str_eq (segment_file_name n) (segment_file_name m) ≡ false
segment_file_name-ne_sym m n h g lt =
    elim (Bool-cases (str_eq (segment_file_name n) (segment_file_name m))) [
      | inr e ↦ e
      | inl e ↦ absurd (
          cc (
            segment_file_name-ne m n h g lt,
            ap (str_eq (segment_file_name m))
                  ((str_eq_iff (segment_file_name n) (segment_file_name m)).0 e)
                ∙ str_eq_refl (segment_file_name m),
          ))
    ]
