-- ===== src/Durable/Compaction/Replays.antt =====
-- durable-mq/coordinator/checkpointing.go: a replay of the compacted records.
use simon_mq.Base.{
  ◌≡◌, refl, ◌∙◌, sym, ap, inl, inr, arith, ◌==◌, Bool, true, false, Option, none, some, List, [],
  ◌∷◌, GoString, str_eq, str_eq_iff, if◌then◌else◌, Bool-cases,
}
use simon_mq.Dict.{Dict, get, has, put, is_some}
use simon_mq.Dict.Laws.{get-put}
use simon_mq.Dict.Keys.{IsMap}
use simon_mq.Model.{SubPolicy}
use simon_mq.Durable.Model.{Codec}
use simon_mq.Durable.Record
use simon_mq.Durable.Record.{Record}
use simon_mq.Durable.Catalog
use simon_mq.Durable.Catalog.{Catalog, process_record}
use simon_mq.Durable.Coordinator.Logged.{logged}
use simon_mq.Durable.Compaction.{
  CompactionState, new_compaction_state, apply_records, records_of, records_of_all, compacted,
  compact_records, or_empty,
}
use simon_mq.Durable.Compaction.Policies.{
  View, catalog_policy, kept_policy, map_view, set_at, decoded, of_subs, catalog-change, Change,
  of_info,
}
use simon_mq.Durable.Compaction.Kept.{kept_policies_are_the_catalog}
use simon_mq.Durable.Compaction.Good.{IsUpdate, AreUpdates, Good, new-Good}
use simon_mq.Dict.Entries.{AllEntries}
use simon_mq.Durable.Compaction.Steps.{apply_records-Good}
use simon_mq.Durable.Compaction.Creations.{logged-++, logged-enqueues, logged-all_acks, creations}

-- The kept policy, or else what was there.
abbrev over : Option SubPolicy → Option SubPolicy → Option SubPolicy
over none o = o
over (some p) o = some p

over-none : (d : Option SubPolicy) → over d none ≡ d
over-none none = refl
over-none (some p) = refl

module _ (codec : Codec) where
  map_view-map_view :
      (a b c : Change codec) (v : View)
      → ((o : Option SubPolicy) → a (b o) ≡ c o)
      → map_view codec a (map_view codec b v) ≡ map_view codec c v
  map_view-map_view a b c none h = refl
  map_view-map_view a b c (some o) h = ap some (h o)

  map_view_same : (v : View) → map_view codec (over none) v ≡ v
  map_view_same none = refl
  map_view_same (some o) = refl

  not_creation :
      (r : Record)
      → (r.op_type == Record.op_update_sub_policy) ≡ true
      → (r.op_type == Record.op_create_queue) ≡ false
  not_creation r e = ground arith

  not_deletion :
      (r : Record)
      → (r.op_type == Record.op_update_sub_policy) ≡ true
      → (r.op_type == Record.op_delete_queue) ≡ false
  not_deletion r e = ground arith

  process_record-update :
      (cat : Catalog) (k j : GoString) (r : Record) (u : IsUpdate codec k j r) (q sub : GoString)
      → catalog_policy (process_record codec cat r).1 q sub ≡ (
          if str_eq k q
          then map_view codec (set_at codec u.policy sub) (catalog_policy cat q sub)
          else catalog_policy cat q sub)
  unfolding process_record Catalog.update_sub_policy catalog_policy
  process_record-update cat k j r u q sub =
      rw (not_creation r u.op, not_deletion r u.op, u.op, u.decodes)
        (catalog-change codec (λ subs. put subs u.policy.sub_name u.policy)
            (set_at codec u.policy sub) (get cat r.queue_name) cat r.queue_name q sub
            (λ m. get-put m u.policy.sub_name sub u.policy) refl
          ∙ at_queue (str_eq k q) refl)
    where
      at_queue :
          (b : Bool)
          → str_eq k q ≡ b
          → (if str_eq r.queue_name q
              then map_view codec (set_at codec u.policy sub) (of_info (get cat r.queue_name) sub)
              else of_info (get cat q) sub)
            ≡ (if b
                then map_view codec (set_at codec u.policy sub) (of_info (get cat q) sub)
                else of_info (get cat q) sub)
      at_queue true e = rw (u.queue, e, (str_eq_iff k q).0 e) refl
      at_queue false e = rw (u.queue, e) refl

  abbrev kept_in : Dict Record → GoString → Option SubPolicy
  kept_in m sub = decoded codec (get m sub)

  set_then_over :
      (j sub : GoString) (r : Record) (m : Dict Record) (p : SubPolicy) (o : Option SubPolicy)
      → p.sub_name ≡ j
      → codec.decode_sub_policy r.payload ≡ some p
      → get m j ≡ none
      → over (kept_in m sub) (set_at codec p sub o) ≡ over (kept_in ((j, r) ∷ m) sub) o
  unfolding get
  set_then_over j sub r m p o e d absent =
      let same : str_eq p.sub_name sub ≡ str_eq j sub = ap (λ n. str_eq n sub) e in
      elim (Bool-cases (str_eq j sub)) [
        | inl f ↦ rw (same, f, d, ← (str_eq_iff j sub).0 f, absent) refl
        | inr f ↦ rw (same, f) refl
      ]

  updates :
      (cat : Catalog) (k : GoString) (m : Dict Record) (q sub : GoString)
      → AreUpdates codec k m
      → catalog_policy (logged codec cat (records_of m)) q sub ≡ (
          if str_eq k q
          then map_view codec (over (kept_in m sub)) (catalog_policy cat q sub)
          else catalog_policy cat q sub)
  unfolding logged records_of
  updates cat k [] q sub h = elim (Bool-cases (str_eq k q)) [
    | inl e ↦ rw e (sym (unfold get in map_view_same (catalog_policy cat q sub)))
    | inr e ↦ rw e refl
  ]
  updates cat k ((j, r) ∷ m) q sub h =
      updates (process_record codec cat r).1 k m q sub (h.0.1, h.1.1)
      ∙ rw (process_record-update cat k j r h.1.0 q sub) (elim (Bool-cases (str_eq k q)) [
        | inl e ↦ rw e (
            map_view-map_view _ _ _ (catalog_policy cat q sub)
              (λ o. set_then_over j sub r m h.1.0.policy o h.1.0.named h.1.0.decodes h.0.0))
        | inr e ↦ rw e refl
      ])

  abbrev kept_of : Dict (Dict Record) → GoString → GoString → Option SubPolicy
  kept_of ms q sub = kept_in (or_empty (get ms q)) sub

  all_updates :
      (cat : Catalog) (ms : Dict (Dict Record)) (q sub : GoString)
      → IsMap ms
      → AllEntries (AreUpdates codec) ms
      → catalog_policy (logged codec cat (records_of_all ms)) q sub
        ≡ map_view codec (over (kept_of ms q sub)) (catalog_policy cat q sub)
  unfolding logged records_of_all get
  all_updates cat [] q sub d h = sym (map_view_same (catalog_policy cat q sub))
  all_updates cat ((k, m) ∷ ms) q sub d h =
      ap (λ c. catalog_policy c q sub) (logged-++ codec cat (records_of m) (records_of_all ms))
      ∙ all_updates (logged codec cat (records_of m)) ms q sub d.1 h.1
      ∙ rw (updates cat k m q sub h.0) (elim (Bool-cases (str_eq k q)) [
        | inl e ↦ rw (e, ← (str_eq_iff k q).0 e, d.0) (map_view_same _)
        | inr e ↦ rw e refl
      ])

  kept_queue :
      (o : Option (Dict Record)) (sub : GoString)
      → map_view codec (over (kept_in (or_empty o) sub)) (if is_some o then some none else none)
        ≡ of_subs codec o sub
  kept_queue none sub = refl
  kept_queue (some m) sub = ap some (over-none (kept_in m sub))

  compacted-policy :
      (s : CompactionState) (q sub : GoString)
      → Good codec s
      → catalog_policy (logged codec [] (compacted s)) q sub ≡ kept_policy codec s q sub
  unfolding compacted kept_policy has
  compacted-policy s q sub g =
      let made = logged codec [] (records_of s.created_queues) in
      let changed = logged codec made (records_of_all s.created_subs) in
      let whole : logged codec [] (compacted s) ≡ changed =
        logged-++ codec [] _ (records_of_all s.in_flight_acks)
        ∙ logged-all_acks codec _ s.in_flight_acks g.acks
        ∙ logged-++ codec [] _ (records_of s.in_flight_messages)
        ∙ logged-enqueues codec _ s.in_flight_messages g.messages
        ∙ logged-++ codec [] (records_of s.created_queues) (records_of_all s.created_subs) in
      ap (λ c. catalog_policy c q sub) whole
      ∙ all_updates made s.created_subs q sub g.subs_map g.subs
      ∙ ap (map_view codec (over (kept_of s.created_subs q sub))) (
          creations codec [] s.created_queues q sub g.queues (unfold catalog_policy get in refl)
          ∙ ap (λ b. if b then some none else none) (g.same_queues q))
      ∙ kept_queue (get s.created_subs q) sub

  -- The catalog that the compacted records make is the one that the records make: the same queues,
  -- and in each the same policy for every subscriber, for any records.
  pub compact_records-same_catalog :
      (recs : List Record) (q sub : GoString)
      → catalog_policy (logged codec [] (compact_records codec recs)) q sub
        ≡ catalog_policy (logged codec [] recs) q sub
  unfolding compact_records
  compact_records-same_catalog recs q sub =
      compacted-policy (apply_records codec new_compaction_state recs) q sub
        (apply_records-Good codec new_compaction_state recs (new-Good codec))
      ∙ kept_policies_are_the_catalog codec recs q sub
