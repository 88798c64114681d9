-- ===== src/Dict/Laws.antt =====
-- Lookups after each operation on a map, in the form that rewriting uses.
use simon_mq.Base.{
  ◌≡◌, refl, ◌≢◌, none, some, [], ◌∷◌, arith, GoString, str_eq, str_eq_iff, str_eq_refl,
  if◌then◌else◌, ◌||◌, not, ◌&&◌,
}
use simon_mq.Dict.{Dict, get, has, put, delete}

module _ {ℓ} {V : Type ℓ} where
  pub get-put :
      (m : Dict V) (k j : GoString) (v : V)
      → get (put m k v) j ≡ (if str_eq k j then some v else get m j)
  unfolding get put
  get-put [] k j v = refl
  get-put ((i, w) ∷ m) k j v =
      ground (arith, str_eq_iff i k, str_eq_iff i j, str_eq_iff k j, get-put m k j v)

  pub get-delete :
      (m : Dict V) (k j : GoString) → get (delete m k) j ≡ (if str_eq k j then none else get m j)
  unfolding get delete
  get-delete [] k j = ground arith
  get-delete ((i, w) ∷ m) k j =
      ground (arith, str_eq_iff i k, str_eq_iff i j, str_eq_iff k j, get-delete m k j)

  pub get-put_self : (m : Dict V) (k : GoString) (v : V) → get (put m k v) k ≡ some v
  get-put_self m k v = ground (arith, get-put m k k v, str_eq_refl k)

  pub get-put_ne : (m : Dict V) (k j : GoString) (v : V) → k ≢ j → get (put m k v) j ≡ get m j
  get-put_ne m k j v ne = ground (arith, get-put m k j v, str_eq_iff k j)

  pub get-delete_self : (m : Dict V) (k : GoString) → get (delete m k) k ≡ none
  get-delete_self m k = ground (arith, get-delete m k k, str_eq_refl k)

  pub get-delete_ne : (m : Dict V) (k j : GoString) → k ≢ j → get (delete m k) j ≡ get m j
  get-delete_ne m k j ne = ground (arith, get-delete m k j, str_eq_iff k j)

  pub has-put : (m : Dict V) (k j : GoString) (v : V) → has (put m k v) j ≡ (str_eq k j || has m j)
  unfolding has
  has-put m k j v = ground (arith, get-put m k j v)

  pub has-delete :
      (m : Dict V) (k j : GoString) → has (delete m k) j ≡ (not (str_eq k j) && has m j)
  unfolding has
  has-delete m k j = ground (arith, get-delete m k j)

  pub get-empty : (k : GoString) → get {V = V} [] k ≡ none
  unfolding get
  get-empty k = refl

  pub get-cons_self : (m : Dict V) (k : GoString) (v : V) → get ((k, v) ∷ m) k ≡ some v
  unfolding get
  get-cons_self m k v = ground (arith, str_eq_refl k)

  -- A lookup in the rest of a map is one in the whole.
  pub get-cons_tail :
      (m : Dict V) (j k : GoString) (w v : V)
      → get m j ≡ none
      → get m k ≡ some v
      → get ((j, w) ∷ m) k ≡ some v
  unfolding get
  get-cons_tail m j k w v absent h = ground (arith, str_eq_iff j k)
