-- ===== src/Dict.antt =====
-- Go maps with string keys, `map[string]V`, as association lists. `range` visits the entries in
-- the order of the list.
pub mod Laws
pub mod Keys
pub mod Entries
pub mod Totals
use simon_mq.Base.{
  ℕ, Bool, true, false, Option, none, some, List, [], ◌∷◌, GoString, str_eq, if◌then◌else◌,
}

abbrev pub Dict {ℓ} : Type ℓ → Type ℓ
Dict V = List (GoString × V)

-- `map[string]struct{}`
abbrev pub Set : Type 0
Set = Dict (Unit {0})

module _ {ℓ} {V : Type ℓ} where
  -- `v, ok := m[k]`
  unfoldable pub get : Dict V → GoString → Option V
  get [] k = none
  get ((j, v) ∷ m) k = if str_eq j k then some v else get m k

  abbrev pub is_some : Option V → Bool
  is_some none = false
  is_some (some v) = true

  -- `_, ok := m[k]`
  unfoldable pub has : Dict V → GoString → Bool
  unfolding get
  has m k = is_some (get m k)

  -- `m[k] = v`
  unfoldable pub put : Dict V → GoString → V → Dict V
  put [] k v = (k, v) ∷ []
  put ((j, w) ∷ m) k v = if str_eq j k then (j, v) ∷ m else (j, w) ∷ put m k v

  -- `delete(m, k)`
  unfoldable pub delete : Dict V → GoString → Dict V
  delete [] k = []
  delete ((j, w) ∷ m) k = if str_eq j k then delete m k else (j, w) ∷ delete m k
