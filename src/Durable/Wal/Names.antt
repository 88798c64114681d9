-- ===== src/Durable/Wal/Names.antt =====
-- The names of segment files in durable-mq/wal/segment-mgr.go: the first log sequence number with
-- 20 decimal digits and `.wal` behind it.
pub mod RoundTrip
pub mod Order
use simon_mq.Base.{
  ℕ, zero, suc, ◌+◌, ◌-◌, ◌*◌, ◌/◌, ◌%◌, ◌^◌, Bool, true, false, ◌&&◌, Option, none, some, List, [],
  ◌∷◌, ◌++◌, GoString, codes, str_eq, length, take, drop, ltb, leb, if◌then◌else◌, ◌>>=◌,
}

-- The last `k` decimal digits of a number, as `%0kd` prints it where `k` digits are enough.
unfoldable pub digits : ℕ → ℕ → GoString
digits zero n = []
digits (suc k) n = digits k (n / 10) ++ (48 + n % 10) ∷ []

abbrev pub wal_suffix : GoString
wal_suffix = codes ".wal"

unfoldable pub segment_file_name : ℕ → GoString
segment_file_name first_lsn = digits 20 first_lsn ++ wal_suffix

-- `strings.HasSuffix` and `strings.TrimSuffix`.
abbrev pub has_suffix : GoString → GoString → Bool
has_suffix s suffix =
    leb (length suffix) (length s) && str_eq (drop (length s - length suffix) s) suffix

abbrev pub trim_suffix : GoString → GoString → GoString
trim_suffix s suffix = if has_suffix s suffix then take (length s - length suffix) s else s

-- `strconv.ParseUint` in base 10: digits only, at least one, and a number of 64 bits.
unfoldable pub parse_digits : ℕ → GoString → Option ℕ
parse_digits n [] = some n
parse_digits n (c ∷ s) = if leb 48 c && leb c 57 then parse_digits (n * 10 + (c - 48)) s else none

abbrev in_range : ℕ → Option ℕ
in_range n = if ltb n (2 ^ 64) then some n else none

abbrev pub parse_uint : GoString → Option ℕ
parse_uint [] = none
parse_uint (c ∷ s) = do n ← parse_digits 0 (c ∷ s); in_range n

-- An absent result is the panic on a malformed name.
unfoldable pub first_lsn : GoString → Option ℕ
first_lsn name = parse_uint (trim_suffix name wal_suffix)
