-- ===== src/Dict/Totals.antt =====
-- The sum of a weight over the entries of a map.
use simon_mq.Base.{ℕ, ◌+◌, ◌≡◌, Option, none, some, [], ◌∷◌, arith, GoString}
use simon_mq.Dict.{Dict, get, put}

module _ {ℓ} {V : Type ℓ} (weight : V → ℕ) where
  unfoldable pub total : Dict V → ℕ
  total [] = 0
  total ((k, v) ∷ m) = weight v + total m

  abbrev pub weight_at : Option V → ℕ
  weight_at none = 0
  weight_at (some v) = weight v

  -- A write replaces the weight at its key.
  pub total-put :
      (m : Dict V) (k : GoString) (v : V)
      → total (put m k v) + weight_at (get m k) ≡ total m + weight v
  unfolding total put get
  total-put [] k v = omega arith
  total-put ((j, w) ∷ m) k v = ground (arith, total-put m k v)
