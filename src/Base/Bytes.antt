-- ===== src/Base/Bytes.antt =====
-- encoding/binary in little-endian order, and hash/crc32 with the IEEE polynomial.
use Prim.Native.Nat.{ℕ, zero, suc, ◌+◌, ◌*◌, ◌/◌, ◌%◌, ◌^◌, ◌<◌, bit_xor}
use mathlib.Core.Path.{◌≡◌, refl, ap}
use mathlib.Core.List.{List, [], ◌∷◌}
use native.Mathlib.Omega.{arith}
use simon_mq.Base.Tests.{◌==◌, if◌then◌else◌}
use simon_mq.Base.Lists.{length}

-- The low `k` bytes of a number.
unfoldable pub le_bytes : ℕ → ℕ → List ℕ
le_bytes zero n = []
le_bytes (suc k) n = n % 256 ∷ le_bytes k (n / 256)

unfoldable pub from_le : List ℕ → ℕ
from_le [] = 0
from_le (b ∷ bs) = b + 256 * from_le bs

pub length-le_bytes : (k n : ℕ) → length (le_bytes k n) ≡ k
unfolding le_bytes
length-le_bytes zero n = refl
length-le_bytes (suc k) n = ap suc (length-le_bytes k (n / 256))

-- Eight and four bytes hold a uint64 and a uint32.
pub from_le-le_bytes_8 : (n : ℕ) → n < 2 ^ 64 → from_le (le_bytes 8 n) ≡ n
unfolding le_bytes from_le
from_le-le_bytes_8 n h = omega arith

pub from_le-le_bytes_4 : (n : ℕ) → n < 2 ^ 32 → from_le (le_bytes 4 n) ≡ n
unfolding le_bytes from_le
from_le-le_bytes_4 n h = omega arith

-- One bit of the checksum register.
abbrev crc_bit : ℕ → ℕ
crc_bit c = if c % 2 == 1 then bit_xor (c / 2) 0xEDB88320 else c / 2

abbrev crc_bits : ℕ → ℕ → ℕ
crc_bits zero c = c
crc_bits (suc k) c = crc_bits k (crc_bit c)

unfoldable crc_update : ℕ → List ℕ → ℕ
crc_update c [] = c
crc_update c (b ∷ bs) = crc_update (crc_bits 8 (bit_xor c b)) bs

-- `crc32.ChecksumIEEE`, a uint32.
unfoldable pub checksum_ieee : List ℕ → ℕ
unfolding crc_update
checksum_ieee bs = bit_xor (crc_update 0xFFFFFFFF bs) 0xFFFFFFFF % 2 ^ 32

pub checksum_ieee-lt : (bs : List ℕ) → checksum_ieee bs < 2 ^ 32
unfolding checksum_ieee
checksum_ieee-lt bs = omega arith
