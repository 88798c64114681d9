-- ===== src/Durable/Compaction/Policies.antt =====
-- durable-mq/coordinator/checkpointing.go against durable-mq/catalog/catalog.go: the queues and the
-- subscribers' policies that a compaction keeps.
use simon_mq.Base.{
  ◌≡◌, refl, ◌∙◌, sym, inl, inr, Option, none, some, [], ◌∷◌, GoString, str_eq, str_eq_iff,
  if◌then◌else◌, Bool-cases,
}
use simon_mq.Dict.{Dict, get, put}
use simon_mq.Dict.Laws.{get-put}
use simon_mq.Model.{SubPolicy}
use simon_mq.Durable.Model.{Codec}
use simon_mq.Durable.Record.{Record}
use simon_mq.Durable.Catalog
use simon_mq.Durable.Catalog.{Catalog, QueueInfo, process_record}
use simon_mq.Durable.Compaction.{CompactionState, forget_messages_of, change_subs, forget_message}

-- `none`: no such queue; `some none`: the queue has no such subscriber.
abbrev pub View : Type 0
View = Option (Option SubPolicy)

abbrev pub of_info : Option QueueInfo → GoString → View
of_info none sub = none
of_info (some q) sub = some (get q.sub_policies sub)

unfoldable pub catalog_policy : Catalog → GoString → GoString → View
catalog_policy cat q sub = of_info (get cat q) sub

module _ (codec : Codec) where
  abbrev pub decoded : Option Record → Option SubPolicy
  decoded none = none
  decoded (some rec) = codec.decode_sub_policy rec.payload

  abbrev pub of_subs : Option (Dict Record) → GoString → View
  of_subs none sub = none
  of_subs (some subs) sub = some (decoded (get subs sub))

  -- The policy in the record that the compaction keeps for the subscriber.
  unfoldable pub kept_policy : CompactionState → GoString → GoString → View
  kept_policy s q sub = of_subs (get s.created_subs q) sub

  pub created_subs-forget :
      (s : CompactionState) (q : GoString) (m : Dict Record)
      → (forget_messages_of s q m).created_subs ≡ s.created_subs
  unfolding forget_messages_of
  created_subs-forget s q [] = refl
  created_subs-forget s q ((k, r) ∷ m) = elim (Bool-cases (str_eq r.queue_name q)) [
    | inl e ↦ rw (e, forget_messages_of) (created_subs-forget (forget_message s k) q m)
    | inr e ↦ rw (e, forget_messages_of) (created_subs-forget s q m)
  ]

  -- A change of one lookup.
  abbrev pub Change : Type 0
  Change = Option SubPolicy → Option SubPolicy

  abbrev pub map_view : Change → View → View
  map_view a none = none
  map_view a (some o) = some (a o)

  abbrev pub set_at : SubPolicy → GoString → Change
  set_at p sub o = if str_eq p.sub_name sub then some p else o

  abbrev pub unset_at : SubPolicy → GoString → Change
  unset_at p sub o = if str_eq p.sub_name sub then none else o

  -- The lookup after an entry of the outer map is changed.
  info_changed :
      (cat : Catalog) (name q sub : GoString) (qi : QueueInfo) (m : Dict SubPolicy)
      → of_info (get (put cat name (record qi { sub_policies = m })) q) sub
        ≡ (if str_eq name q then some (get m sub) else of_info (get cat q) sub)
  info_changed cat name q sub qi m = elim (Bool-cases (str_eq name q)) [
    | inl e ↦ rw (get-put cat name q (record qi { sub_policies = m }), e) refl
    | inr e ↦ rw (get-put cat name q (record qi { sub_policies = m }), e) refl
  ]

  subs_changed :
      (c : Dict (Dict Record)) (name q sub : GoString) (m : Dict Record)
      → of_subs (get (put c name m) q) sub
        ≡ (if str_eq name q then some (decoded (get m sub)) else of_subs (get c q) sub)
  subs_changed c name q sub m = elim (Bool-cases (str_eq name q)) [
    | inl e ↦ rw (get-put c name q m, e) refl
    | inr e ↦ rw (get-put c name q m, e) refl
  ]

  pub catalog-change :
      (f : Dict SubPolicy → Dict SubPolicy) (a : Change) (o : Option QueueInfo) (cat : Catalog)
      (name q sub : GoString)
      → ((m : Dict SubPolicy) → get (f m) sub ≡ a (get m sub))
      → get cat name ≡ o
      → catalog_policy (Catalog.change_subs o cat name f).1 q sub
        ≡ (if str_eq name q then map_view a (of_info o sub) else catalog_policy cat q sub)
  unfolding catalog_policy
  catalog-change f a none cat name q sub g e = elim (Bool-cases (str_eq name q)) [
    | inl h ↦ rw (h, sym ((str_eq_iff name q).0 h), e) refl
    | inr h ↦ rw h refl
  ]
  catalog-change f a (some qi) cat name q sub g e =
      info_changed cat name q sub qi (f qi.sub_policies) ∙ rw (g qi.sub_policies) refl

  kept-change :
      (f : Dict Record → Dict Record) (a : Change) (o : Option (Dict Record)) (s : CompactionState)
      (name q sub : GoString)
      → ((m : Dict Record) → decoded (get (f m) sub) ≡ a (decoded (get m sub)))
      → get s.created_subs name ≡ o
      → kept_policy (change_subs o s name f) q sub
        ≡ (if str_eq name q then map_view a (of_subs o sub) else kept_policy s q sub)
  unfolding kept_policy
  kept-change f a none s name q sub g e = elim (Bool-cases (str_eq name q)) [
    | inl h ↦ rw (h, sym ((str_eq_iff name q).0 h), e) refl
    | inr h ↦ rw h refl
  ]
  kept-change f a (some subs) s name q sub g e =
      subs_changed s.created_subs name q sub (f subs) ∙ rw (g subs) refl

  -- Both sides agree on every queue and subscriber.
  abbrev pub Agree : CompactionState → Catalog → Type 0
  Agree s cat = (q sub : GoString) → kept_policy s q sub ≡ catalog_policy cat q sub

  pub Agree-change :
      (f : Dict Record → Dict Record) (f' : Dict SubPolicy → Dict SubPolicy) (a : GoString → Change)
      (s : CompactionState) (cat : Catalog) (name : GoString)
      → ((sub : GoString) (m : Dict Record) → decoded (get (f m) sub) ≡ a sub (decoded (get m sub)))
      → ((sub : GoString) (m : Dict SubPolicy) → get (f' m) sub ≡ a sub (get m sub))
      → Agree s cat
      → Agree
          (change_subs (get s.created_subs name) s name f)
          (Catalog.change_subs (get cat name) cat name f').1
  unfolding kept_policy catalog_policy
  Agree-change f f' a s cat name g g' h q sub =
      kept-change f (a sub) (get s.created_subs name) s name q sub (g sub) refl
      ∙ rw (h name sub, h q sub) refl
      ∙ sym (catalog-change f' (a sub) (get cat name) cat name q sub (g' sub) refl)
