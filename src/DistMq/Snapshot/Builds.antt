-- ===== src/DistMq/Snapshot/Builds.antt =====
-- The maps that `Restore` builds do not depend on the order in which their entries come.
use simon_mq.Base.{
  ◌≡◌, refl, ◌∙◌, ap, inl, inr, Bool, false, Option, none, some, List, [], ◌∷◌, map, arith,
  GoString, str_eq, str_eq_iff, str_eq_refl, sort, insert_sorted, any, any-sort, Bool-cases,
}
use simon_mq.Dict.{Dict, get, has, put, is_some}
use simon_mq.Dict.Laws.{get-put, get-empty}
use simon_mq.Dict.Keys.{IsMap}
use simon_mq.Dict.Entries.{AllEntries}
use simon_mq.DistMq.Storage.{values}
use simon_mq.DistMq.Snapshot.{build}

-- Equal at every key.
abbrev pub Same {ℓ} : {V : Type ℓ} → Dict V → Dict V → Type ℓ
Same d d' = (k : GoString) → get d k ≡ get d' k

module _ {ℓ κ} {A : Type ℓ} {V : Type κ} (key : A → GoString) (val : A → V) where
  build-Same :
      (d d' : Dict V) (xs : List A) → Same d d' → Same (build key val d xs) (build key val d' xs)
  unfolding build
  build-Same d d' [] s = s
  build-Same d d' (x ∷ xs) s =
      build-Same (put d (key x) (val x)) (put d' (key x) (val x)) xs
        (λ k. ground (arith, get-put d (key x) k (val x), get-put d' (key x) k (val x), s k))

  abbrev has_key : GoString → A → Bool
  has_key k y = str_eq k (key y)

  -- No key stands twice in the list.
  abbrev pub Distinct : List A → Type 0
  Distinct [] = Unit
  Distinct (x ∷ xs) = (any (has_key (key x)) xs ≡ false) × Distinct xs

  swap_lem :
      (d : Dict V) (x y : A)
      → str_eq (key x) (key y) ≡ false
      → Same
          (put (put d (key y) (val y)) (key x) (val x))
          (put (put d (key x) (val x)) (key y) (val y))
  swap_lem d x y ne k = ground (
    arith,
    get-put (put d (key y) (val y)) (key x) k (val x),
    get-put d (key y) k (val y),
    get-put (put d (key x) (val x)) (key y) k (val y),
    get-put d (key x) k (val x),
    str_eq_iff (key x) k,
    str_eq_iff (key y) k,
    str_eq_iff (key x) (key y),
  )

  build-insert_sorted :
      (less : A → A → Bool) (d : Dict V) (x : A) (ys : List A)
      → any (has_key (key x)) ys ≡ false
      → Same (build key val d (insert_sorted less x ys)) (build key val (put d (key x) (val x)) ys)
  unfolding build insert_sorted
  build-insert_sorted less d x [] a k = refl
  build-insert_sorted less d x (y ∷ ys) a k = elim (Bool-cases (less y x)) [
    | inr e ↦ rw e refl
    | inl e ↦
        let apart : str_eq (key x) (key y) ≡ false = ground (arith, a) in
        let rest : any (has_key (key x)) ys ≡ false = ground (arith, a) in
        rw (e, build)
          (build-insert_sorted less (put d (key y) (val y)) x ys rest k
            ∙ build-Same (put (put d (key y) (val y)) (key x) (val x))
                (put (put d (key x) (val x)) (key y) (val y)) ys (swap_lem d x y apart) k)
  ]

  pub build-sort :
      (less : A → A → Bool) (d : Dict V) (xs : List A)
      → Distinct xs
      → Same (build key val d (sort less xs)) (build key val d xs)
  unfolding build sort
  build-sort less d [] h k = refl
  build-sort less d (x ∷ xs) h k =
      build-insert_sorted less d x (sort less xs) (any-sort (has_key (key x)) less xs ∙ h.0) k
      ∙ build-sort less (put d (key x) (val x)) xs h.1 k

abbrev pub map_option {ℓ κ} : {A : Type ℓ} {B : Type κ} → (A → B) → Option A → Option B
map_option f none = none
map_option f (some x) = some (f x)

abbrev or_old {ℓ} : {B : Type ℓ} → Option B → Option B → Option B
or_old none o = o
or_old (some x) o = some x

module _ {ℓ κ μ} {A : Type ℓ} {V : Type κ} {B : Type μ} (key : A → GoString) (val : A → V)
    (f : B → A) where
  -- Each entry stands under the key of its element.
  abbrev pub AreKeys : Dict B → Type 0
  AreKeys m = AllEntries (λ k b. key (f b) ≡ k) m

  build-values :
      (d : Dict V) (m : Dict B) (k : GoString)
      → IsMap m
      → AreKeys m
      → get (build key val d (map f (values m))) k
        ≡ or_old (map_option (λ b. val (f b)) (get m k)) (get d k)
  unfolding build get
  build-values d [] k h n = refl
  build-values d ((j, b) ∷ m) k h n =
      build-values (put d (key (f b)) (val (f b))) m k h.1 n.1
      ∙ ground (
        arith,
        get-put d (key (f b)) k (val (f b)),
        ap (λ i. str_eq i k) n.0,
        str_eq_iff j k,
        h.0,
      )

  any-key :
      (c : GoString) (m : Dict B)
      → AreKeys m
      → any (λ y. str_eq c (key y)) (map f (values m)) ≡ has m c
  unfolding has get
  any-key c [] n = refl
  any-key c ((j, b) ∷ m) n =
      ground
        (arith, any-key c m n.1, ap (str_eq c) n.0, str_eq_iff c j, str_eq_iff j c, str_eq_refl c)

  values-Distinct : (m : Dict B) → IsMap m → AreKeys m → Distinct key val (map f (values m))
  values-Distinct [] h n = tt
  values-Distinct ((j, b) ∷ m) h n = (
    any-key (key (f b)) m n.1 ∙ (unfold has in ap is_some (ap (get m) n.0 ∙ h.0)),
    values-Distinct m h.1 n.1,
  )

  or_none : (o : Option V) (k : GoString) → or_old o (get [] k) ≡ o
  or_none none k = get-empty {V = V} k
  or_none (some v) k = refl

  -- A map that is built from the sorted values of another has its entries.
  pub build-sorted_values :
      (less : A → A → Bool) (m : Dict B) (k : GoString)
      → IsMap m
      → AreKeys m
      → get (build key val [] (sort less (map f (values m)))) k
        ≡ map_option (λ b. val (f b)) (get m k)
  build-sorted_values less m k h n =
      build-sort key val less [] (map f (values m)) (values-Distinct m h n) k
      ∙ (build-values [] m k h n ∙ or_none (map_option (λ b. val (f b)) (get m k)) k)
