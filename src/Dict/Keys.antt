-- ===== src/Dict/Keys.antt =====
-- Maps have no key twice, and what follows for their sizes: one set of keys inside another is no
-- larger, and is the whole of it where the sizes agree.
use simon_mq.Base.{
  ◌+◌, ◌≤◌, ◌<◌, ◌≡◌, refl, inl, inr, true, false, none, [], ◌∷◌, arith, length, GoString, str_eq,
  str_eq_iff, str_eq_refl, if◌then◌else◌, Bool-cases,
}
use simon_mq.Dict.{Dict, get, has, put, delete}
use simon_mq.Dict.Laws.{get-put, get-delete, has-delete}

module _ {ℓ} {V : Type ℓ} where
  -- Each key stands in one entry.
  abbrev pub IsMap : Dict V → Type ℓ
  IsMap [] = Unit
  IsMap ((k, v) ∷ m) = (get m k ≡ none) × IsMap m

  pub put-IsMap : (m : Dict V) (k : GoString) (v : V) → IsMap m → IsMap (put m k v)
  unfolding put
  put-IsMap [] k v h = (unfold get in refl, tt)
  put-IsMap ((j, w) ∷ m) k v h = elim (Bool-cases (str_eq j k)) [
    | inl e ↦ rw e h
    | inr e ↦
        rw e (
          ground (arith, h.0, get-put m k j v, str_eq_iff k j, str_eq_iff j k),
          put-IsMap m k v h.1,
        )
  ]

  pub delete-IsMap : (m : Dict V) (k : GoString) → IsMap m → IsMap (delete m k)
  unfolding delete
  delete-IsMap [] k h = tt
  delete-IsMap ((j, w) ∷ m) k h = elim (Bool-cases (str_eq j k)) [
    | inl e ↦ rw e (delete-IsMap m k h.1)
    | inr e ↦ rw e (ground (arith, h.0, get-delete m k j), delete-IsMap m k h.1)
  ]

  pub length-put :
      (m : Dict V) (k : GoString) (v : V)
      → length (put m k v) ≡ (if has m k then length m else length m + 1)
  unfolding put has
  length-put [] k v = omega arith
  length-put ((j, w) ∷ m) k v = ground (arith, length-put m k v)

  delete_absent : (m : Dict V) (k : GoString) → get m k ≡ none → delete m k ≡ m
  unfolding delete get
  delete_absent [] k h = refl
  delete_absent ((j, w) ∷ m) k h = ground (arith, delete_absent m k)

  pub length-delete-le : (m : Dict V) (k : GoString) → length (delete m k) ≤ length m
  unfolding delete
  length-delete-le [] k = omega arith
  length-delete-le ((j, w) ∷ m) k = ground (arith, length-delete-le m k)

  pub length-delete-lt :
      (m : Dict V) (k : GoString) → has m k ≡ true → length (delete m k) < length m
  unfolding delete has
  length-delete-lt [] k h = cc
  length-delete-lt ((j, w) ∷ m) k h = ground (arith, length-delete-lt m k, length-delete-le m k)

  pub length-delete :
      (m : Dict V) (k : GoString)
      → IsMap m
      → length m ≡ (if has m k then length (delete m k) + 1 else length (delete m k))
  unfolding delete has
  length-delete [] k h = refl
  length-delete ((j, w) ∷ m) k h =
      ground (arith, length-delete m k h.1, delete_absent m k, h.0, str_eq_iff j k)

-- Every key of `a` is one of `b`.
abbrev pub KeysIn {ℓ κ} : {V : Type ℓ} {W : Type κ} → Dict V → Dict W → Type 0
KeysIn a b = (k : GoString) → has a k ≡ true → has b k ≡ true

module _ {ℓ κ} {V : Type ℓ} {W : Type κ} where
  KeysIn-delete :
      (k : GoString) (v : V) (a : Dict V) (b : Dict W)
      → get a k ≡ none
      → KeysIn ((k, v) ∷ a) b
      → KeysIn a (delete b k)
  unfolding has
  KeysIn-delete k v a b absent s j h = ground (arith, s j, get-delete b k j, str_eq_iff k j)

  pub length_le_of_KeysIn : (a : Dict V) (b : Dict W) → IsMap a → KeysIn a b → length a ≤ length b
  length_le_of_KeysIn [] b m s = omega arith
  length_le_of_KeysIn ((k, v) ∷ a) b m s = omega (
    arith,
    length_le_of_KeysIn a (delete b k) m.1 (KeysIn-delete k v a b m.0 s),
    length-delete-lt b k (s k (unfold has in ground (arith, str_eq_refl k))),
  )

  -- A set of keys inside another and at least as large is all of it.
  pub KeysIn-of_length_le :
      (a : Dict V) (b : Dict W) → IsMap a → KeysIn a b → length b ≤ length a → KeysIn b a
  KeysIn-of_length_le a b m s le k h = elim (Bool-cases (has a k)) [
    | inl e ↦ e
    | inr e ↦
        absurd
          (omega (arith, length_le_of_KeysIn a (delete b k) m (others k e), length-delete-lt b k h))
  ]
    where
      others : (k : GoString) → has a k ≡ false → KeysIn a (delete b k)
      others k e j h = ground (arith, s j h, has-delete b k j, str_eq_iff k j)
