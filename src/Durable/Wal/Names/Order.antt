-- ===== src/Durable/Wal/Names/Order.antt =====
-- Segment names sort as their numbers do.
use simon_mq.Base.{
  ℕ, zero, suc, ◌+◌, ◌/◌, ◌%◌, ◌^◌, ◌<◌, ◌≤◌, ◌≡◌, refl, ◌∙◌, sym, ap, inl, inr, true, false, ◌&&◌,
  ◌||◌, some, [], ◌∷◌, ◌++◌, arith, GoString, str_eq, str_eq_iff, str_lt, length, Bool-cases,
}
use simon_mq.Durable.Wal.Names.{digits, wal_suffix, segment_file_name, parse_digits, has_suffix}
use simon_mq.Durable.Wal.Names.RoundTrip.{ten_to, parse-digits, length-digits, has_suffix_append}

str_lt-append :
    (xs ys s t : GoString)
    → length xs ≡ length ys
    → str_lt (xs ++ s) (ys ++ t) ≡ (str_lt xs ys || (str_eq xs ys && str_lt s t))
unfolding str_lt str_eq
str_lt-append [] [] s t e = refl
str_lt-append [] (y ∷ ys) s t e = absurd (omega (arith, e))
str_lt-append (x ∷ xs) [] s t e = absurd (omega (arith, e))
str_lt-append (x ∷ xs) (y ∷ ys) s t e = ground (arith, str_lt-append xs ys s t (omega (arith, e)))

str_lt_refl : (s : GoString) → str_lt s s ≡ false
unfolding str_lt
str_lt_refl [] = refl
str_lt_refl (x ∷ s) = ground (arith, str_lt_refl s)

digits_inj :
    (k a b : ℕ) → a < ten_to k → b < ten_to k → str_eq (digits k a) (digits k b) ≡ true → a ≡ b
digits_inj k a b h g e =
    let same : some a ≡ some b =
      sym (parse-digits k a h)
      ∙ (ap (parse_digits 0) ((str_eq_iff (digits k a) (digits k b)).0 e) ∙ parse-digits k b g) in
    cc

last_digits : (x y : ℕ) → x ≤ y → str_lt ((48 + y) ∷ []) ((48 + x) ∷ []) ≡ false
unfolding str_lt
last_digits x y h = ground arith

str_lt-digits :
    (k a b : ℕ) → a ≤ b → a < ten_to k → b < ten_to k → str_lt (digits k b) (digits k a) ≡ false
unfolding digits
str_lt-digits zero a b le h g = unfold str_lt in refl
str_lt-digits (suc k) a b le h g =
    let lens : length (digits k (b / 10)) ≡ length (digits k (a / 10)) =
      omega (arith, length-digits k (b / 10), length-digits k (a / 10)) in
    str_lt-append (digits k (b / 10)) (digits k (a / 10)) ((48 + b % 10) ∷ []) ((48 + a % 10) ∷ [])
      lens
    ∙ (elim (Bool-cases (str_eq (digits k (b / 10)) (digits k (a / 10)))) [
      | inr e ↦
          ground
            (arith, str_lt-digits k (a / 10) (b / 10) (omega arith) (omega arith) (omega arith), e)
      | inl e ↦
          let same : b / 10 ≡ a / 10 =
            digits_inj k (b / 10) (a / 10) (omega arith) (omega arith) e in
          ground (
            arith,
            str_lt-digits k (a / 10) (b / 10) (omega arith) (omega arith) (omega arith),
            last_digits (a % 10) (b % 10) (omega (arith, same)),
          )
    ])

-- The name of a larger number does not come first.
pub str_lt-segment_file_name :
    (a b : ℕ) → a ≤ b → b < 2 ^ 64 → str_lt (segment_file_name b) (segment_file_name a) ≡ false
unfolding segment_file_name
str_lt-segment_file_name a b le h =
    str_lt-append (digits 20 b) (digits 20 a) wal_suffix wal_suffix
      (omega (arith, length-digits 20 b, length-digits 20 a))
    ∙ ground (arith, str_lt-digits 20 a b le (omega arith) (omega arith), str_lt_refl wal_suffix)

pub segment-has_suffix : (n : ℕ) → has_suffix (segment_file_name n) wal_suffix ≡ true
unfolding segment_file_name
segment-has_suffix n = has_suffix_append (digits 20 n) wal_suffix
