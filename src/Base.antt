-- ===== src/Base.antt =====
-- The names that every module shares: those of the libraries, and the notation and the lemmas on
-- tests, lists and options of the child modules.
mod Tests
mod Lists
mod Text
mod Sort
mod Bytes
pub use Tests.*
pub use Lists.*
pub use Text.{GoString, codes, str_eq_iff, str_eq_refl}
unfoldable pub use Text.{str_eq}
pub use Sort.{any, any-sort}
unfoldable pub use Sort.{str_lt, insert_sorted, sort}
pub use Bytes.{length-le_bytes, from_le-le_bytes_8, from_le-le_bytes_4, checksum_ieee-lt}
unfoldable pub use Bytes.{le_bytes, from_le, checksum_ieee}
pub use Prim.Native.Nat.{ℕ, zero, suc, ◌+◌, ◌-◌, ◌*◌, ◌/◌, ◌%◌, ◌^◌, ◌≤◌, ◌<◌, max}
pub use mathlib.Core.Path.{◌≡◌, refl, sym, ap, ◌∙◌, subst}
pub use mathlib.Core.Logic.{◌≢◌, ◌↔◌, ◌⊎◌, inl, inr}
pub use mathlib.Core.Bool.{Bool, true, false, not, ◌&&◌, ◌||◌}
pub use mathlib.Core.Option.{Option, none, some}
pub use mathlib.Core.List.{List, [], ◌∷◌, ◌++◌, map}
pub use native.Mathlib.Omega.{arith}
