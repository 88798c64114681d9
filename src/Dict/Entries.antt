-- ===== src/Dict/Entries.antt =====
-- What holds of every entry of a map, after a write and after a removal.
use simon_mq.Base.{
  ◌≡◌, sym, subst, inl, inr, some, [], ◌∷◌, arith, GoString, str_eq, str_eq_iff, Bool-cases,
}
use simon_mq.Dict.{Dict, get, put, delete}
use simon_mq.Dict.Laws.{get-put, get-delete}

-- Writes at a key, and the removal of one, keep what holds of every entry.
module _ {ℓ} {V : Type 0} (P : GoString → V → Type ℓ) (m : Dict V) (k : GoString)
    (old : (j : GoString) (v : V) → get m j ≡ some v → P j v) where
  pub each-put : (v : V) → P k v → (j : GoString) (w : V) → get (put m k v) j ≡ some w → P j w
  each-put v p j w e = elim (Bool-cases (str_eq k j)) [
    | inl same ↦
        subst (λ i. P i w) ((str_eq_iff k j).0 same)
          (subst (P k) (ground (arith, get-put m k j v)) p)
    | inr other ↦ old j w (ground (arith, get-put m k j v))
  ]

  pub each-delete : (j : GoString) (w : V) → get (delete m k) j ≡ some w → P j w
  each-delete j w e = old j w (ground (arith, get-delete m k j))

-- Every entry of the list, shadowed ones included.
module _ {ℓ} {V : Type ℓ} (P : GoString → V → Type 0) where
  abbrev pub AllEntries : Dict V → Type 0
  AllEntries [] = Unit
  AllEntries ((k, v) ∷ m) = P k v × AllEntries m

  pub put-AllEntries :
      (m : Dict V) (k : GoString) (v : V) → AllEntries m → P k v → AllEntries (put m k v)
  unfolding put
  put-AllEntries [] k v h p = (p, tt)
  put-AllEntries ((j, w) ∷ m) k v h p = elim (Bool-cases (str_eq j k)) [
    | inl e ↦ rw e (subst (λ i. P i v) (sym ((str_eq_iff j k).0 e)) p, h.1)
    | inr e ↦ rw e (h.0, put-AllEntries m k v h.1 p)
  ]

  pub delete-AllEntries : (m : Dict V) (k : GoString) → AllEntries m → AllEntries (delete m k)
  unfolding delete
  delete-AllEntries [] k h = tt
  delete-AllEntries ((j, w) ∷ m) k h = elim (Bool-cases (str_eq j k)) [
    | inl e ↦ rw e (delete-AllEntries m k h.1)
    | inr e ↦ rw e (h.0, delete-AllEntries m k h.1)
  ]

  pub get-AllEntries : (m : Dict V) (k : GoString) (v : V) → AllEntries m → get m k ≡ some v → P k v
  unfolding get
  get-AllEntries [] k v h e = absurd cc
  get-AllEntries ((j, w) ∷ m) k v h e = elim (Bool-cases (str_eq j k)) [
    | inl f ↦
        let same : w ≡ v = cc (rw f at e) in
        subst (λ i. P i v) ((str_eq_iff j k).0 f) (subst (P j) same h.0)
    | inr f ↦ get-AllEntries m k v h.1 (rw f at e)
  ]
