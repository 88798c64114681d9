-- ===== src/Base/Sort.antt =====
-- `sort.Strings` and `sort.Slice` with a strict order on a key: insertion sort.
use mathlib.Core.List.{List, [], ◌∷◌}
use mathlib.Core.Bool.{Bool, true, false, ◌||◌}
use mathlib.Core.Path.{◌≡◌, refl}
use native.Mathlib.Omega.{arith}
use simon_mq.Base.Tests.{ltb, ◌==◌, if◌then◌else◌}
use simon_mq.Base.Text.{GoString}

-- `a < b` on strings: byte by byte, a prefix first.
unfoldable pub str_lt : GoString → GoString → Bool
str_lt [] [] = false
str_lt [] (y ∷ t) = true
str_lt (x ∷ s) [] = false
str_lt (x ∷ s) (y ∷ t) = if x == y then str_lt s t else ltb x y

module _ {ℓ} {A : Type ℓ} (less : A → A → Bool) where
  unfoldable pub insert_sorted : A → List A → List A
  insert_sorted x [] = x ∷ []
  insert_sorted x (y ∷ ys) = if less y x then y ∷ insert_sorted x ys else x ∷ y ∷ ys

  unfoldable pub sort : List A → List A
  unfolding insert_sorted
  sort [] = []
  sort (x ∷ xs) = insert_sorted x (sort xs)

-- Whether an element passes a test; the sort keeps it.
module _ {ℓ} {A : Type ℓ} (test : A → Bool) where
  abbrev pub any : List A → Bool
  any [] = false
  any (x ∷ xs) = test x || any xs

  any-insert_sorted :
      (less : A → A → Bool) (x : A) (xs : List A)
      → any (insert_sorted less x xs) ≡ (test x || any xs)
  unfolding insert_sorted
  any-insert_sorted less x [] = refl
  any-insert_sorted less x (y ∷ ys) = ground (arith, any-insert_sorted less x ys)

  pub any-sort : (less : A → A → Bool) (xs : List A) → any (sort less xs) ≡ any xs
  unfolding sort
  any-sort less [] = refl
  any-sort less (x ∷ xs) = ground (arith, any-insert_sorted less x (sort less xs), any-sort less xs)
