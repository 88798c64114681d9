-- ===== src/DistMq/Storage/Members.antt =====
-- Membership in the sorted names of dist-mq/storage/in-memory-storage.go.
use simon_mq.Base.{
  ◌≡◌, refl, ◌∙◌, sym, ap, ◌||◌, List, [], ◌∷◌, arith, GoString, str_eq, str_lt, sort, any,
  any-sort,
}
use simon_mq.Dict.{Dict, get, has}
use simon_mq.DistMq.Storage.{keys}
use simon_mq.DistMq.Storage.Owed.{mem}

mem-any : (k : GoString) (xs : List GoString) → mem k xs ≡ any (λ x. str_eq x k) xs
unfolding mem
mem-any k [] = refl
mem-any k (x ∷ xs) = ap (λ b. str_eq x k || b) (mem-any k xs)

pub mem-sort : (k : GoString) (xs : List GoString) → mem k (sort str_lt xs) ≡ mem k xs
mem-sort k xs =
    mem-any k (sort str_lt xs) ∙ (any-sort (λ x. str_eq x k) str_lt xs ∙ sym (mem-any k xs))

pub mem-keys {ℓ} : {V : Type ℓ} (m : Dict V) (k : GoString) → mem k (keys m) ≡ has m k
unfolding mem has get
mem-keys [] k = refl
mem-keys ((j, v) ∷ m) k = ground (arith, mem-keys m k)
