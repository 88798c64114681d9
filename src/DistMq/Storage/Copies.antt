-- ===== src/DistMq/Storage/Copies.antt =====
-- `copySubs` copies a map.
use simon_mq.Base.{◌≡◌, refl, ◌∙◌, none, [], ◌∷◌, ◌++◌, arith, GoString, str_eq_iff}
use mathlib.Core.List.{append-nil, append_assoc}
use simon_mq.Dict.{Dict, get, put}
use simon_mq.Dict.Laws.{get-put}
use simon_mq.Dict.Keys.{IsMap}
use simon_mq.DistMq.Storage.{copy_into, copy_subs}

module _ {ℓ} {V : Type ℓ} where
  -- A new key goes to the end.
  pub put_absent :
      (m : Dict V) (k : GoString) (v : V) → get m k ≡ none → put m k v ≡ m ++ (k, v) ∷ []
  unfolding put get
  put_absent [] k v h = refl
  put_absent ((j, w) ∷ m) k v h = ground (arith, put_absent m k v)

  -- The keys of `m` are not in `out`.
  abbrev Apart : Dict V → Dict V → Type ℓ
  Apart out [] = Unit
  Apart out ((k, v) ∷ m) = (get out k ≡ none) × Apart out m

  Apart-put :
      (out m : Dict V) (k : GoString) (v : V) → get m k ≡ none → Apart out m → Apart (put out k v) m
  Apart-put out [] k v h a = tt
  Apart-put out ((j, w) ∷ m) k v h a = (
    unfold get in ground (arith, get-put out k j v, str_eq_iff k j, str_eq_iff j k),
    Apart-put out m k v (unfold get in ground arith) a.1,
  )

  copy_into_lem : (out m : Dict V) → IsMap m → Apart out m → copy_into out m ≡ out ++ m
  copy_into_lem out [] h a = rw append-nil
  copy_into_lem out ((k, v) ∷ m) h a =
      copy_into_lem (put out k v) m h.1 (Apart-put out m k v h.0 a.1)
      ∙ rw (put_absent out k v a.0, append_assoc)

  Apart-nil : (m : Dict V) → Apart [] m
  Apart-nil [] = tt
  Apart-nil ((k, v) ∷ m) = (unfold get in refl, Apart-nil m)

  pub copy_subs_lem : (m : Dict V) → IsMap m → copy_subs m ≡ m
  unfolding copy_subs
  copy_subs_lem m h = copy_into_lem [] m h (Apart-nil m)
