-- ===== src/Pending.antt =====
-- The subscribers of a message that have not acked it, as the loop that stands in the workers of
-- push-mq and durable-mq and in dist-mq/delivery/queue.go collects them.
use simon_mq.Base.{
  ◌⊎◌, refl, ◌==◌, length, ℕ, ◌+◌, Bool, false, ◌||◌, ◌≡◌, ◌∙◌, inl, inr, Option, none, some, [],
  ◌∷◌, arith, GoString, str_eq_iff, if◌then◌else◌, Bool-cases,
}
use simon_mq.Dict.{Dict, Set, get, has, put}
use simon_mq.Model.{SubPolicy, reached, or_zero}
use simon_mq.Dict.Laws.{get-put}
use simon_mq.Dict.Keys.{IsMap, put-IsMap}
use simon_mq.Dict.Entries.{AllEntries, put-AllEntries}

-- Each policy stands under its own name.
abbrev pub IsNamed : GoString → SubPolicy → Type 0
IsNamed k p = p.sub_name ≡ k

-- The retries that a pass leaves for a subscriber, and whether it is finished.
abbrev pub retries_after : (SubPolicy → Bool) → Option SubPolicy → Option ℕ → Option ℕ
retries_after sent none n = n
retries_after sent (some p) n = if sent p then n else some (or_zero n + 1)

abbrev pub is_finished : (SubPolicy → Bool) → Option SubPolicy → Option ℕ → Bool
is_finished sent none n = false
is_finished sent (some p) n = sent p || reached (or_zero n + 1) p.number_of_retries

abbrev pub or_else {ℓ} : {V : Type ℓ} → Option V → Option V → Option V
or_else none o = o
or_else (some v) o = some v

pub empty-cases {ℓ} :
    {V : Type ℓ} (pending : Dict V) → (pending ≡ []) ⊎ ((length pending == 0) ≡ false)
empty-cases [] = inl refl
empty-cases (p ∷ pending) = inr (ground arith)

module _ {ℓ} {V : Type ℓ} where
  unfoldable pub pending_into : Dict V → Dict V → Set → Dict V
  pending_into out [] acked = out
  pending_into out ((name, v) ∷ m) acked =
      pending_into (if has acked name then out else put out name v) m acked

  pub get-pending_into :
      (out m : Dict V) (acked : Set) (k : GoString)
      → IsMap m
      → get (pending_into out m acked) k
        ≡ (if has acked k then get out k else or_else (get m k) (get out k))
  unfolding pending_into get
  get-pending_into out [] acked k h = ground arith
  get-pending_into out ((j, v) ∷ m) acked k h =
      get-pending_into (if has acked j then out else put out j v) m acked k h.1
      ∙ ground (arith, get-put out j k v, str_eq_iff j k, h.0)

  pub pending_into-IsMap :
      (out m : Dict V) (acked : Set) → IsMap out → IsMap (pending_into out m acked)
  unfolding pending_into
  pending_into-IsMap out [] acked h = h
  pending_into-IsMap out ((j, v) ∷ m) acked h = elim (Bool-cases (has acked j)) [
    | inl e ↦ rw (e, pending_into) (pending_into-IsMap out m acked h)
    | inr e ↦ rw (e, pending_into) (pending_into-IsMap (put out j v) m acked (put-IsMap out j v h))
  ]

  pub pending_into-AllEntries :
      (P : GoString → V → Type 0) (out m : Dict V) (acked : Set)
      → AllEntries P out
      → AllEntries P m
      → AllEntries P (pending_into out m acked)
  unfolding pending_into
  pending_into-AllEntries P out [] acked h g = h
  pending_into-AllEntries P out ((j, v) ∷ m) acked h g = elim (Bool-cases (has acked j)) [
    | inl e ↦ rw (e, pending_into) (pending_into-AllEntries P out m acked h g.1)
    | inr e ↦
        rw (e, pending_into)
          (pending_into-AllEntries P (put out j v) m acked (put-AllEntries P out j v h g.0) g.1)
  ]
