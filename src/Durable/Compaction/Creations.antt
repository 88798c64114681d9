-- ===== src/Durable/Compaction/Creations.antt =====
-- durable-mq/coordinator/checkpointing.go: a replay of the compacted records, up to the
-- updates.
use simon_mq.Base.{
  ◌≡◌, refl, ◌∙◌, ap, inl, inr, ◌==◌, true, none, some, List, [], ◌∷◌, ◌++◌, GoString, str_eq,
  if◌then◌else◌, Bool-cases,
}
use simon_mq.Dict.{Dict, get, has, put}
use simon_mq.Dict.Laws.{get-put}
use simon_mq.Durable.Model.{Codec}
use simon_mq.Durable.Record
use simon_mq.Durable.Record.{Record}
use simon_mq.Durable.Catalog
use simon_mq.Durable.Catalog.{Catalog, process_record}
use simon_mq.Durable.Coordinator.Logged.{logged, process_record-enqueue, process_record-ack}
use simon_mq.Durable.Compaction.{records_of, records_of_all}
use simon_mq.Durable.Compaction.Policies.{catalog_policy}
use simon_mq.Durable.Compaction.Good.{IsCreation, IsEnqueue, IsAck, AreAcks}
use simon_mq.Dict.Entries.{AllEntries}

module _ (codec : Codec) where
  pub logged-++ :
      (cat : Catalog) (xs ys : List Record)
      → logged codec cat (xs ++ ys) ≡ logged codec (logged codec cat xs) ys
  unfolding logged
  logged-++ cat [] ys = refl
  logged-++ cat (x ∷ xs) ys = logged-++ (process_record codec cat x).1 xs ys

  -- Enqueues and acks leave the catalog alone.
  pub logged-enqueues :
      (cat : Catalog) (m : Dict Record)
      → AllEntries IsEnqueue m
      → logged codec cat (records_of m) ≡ cat
  unfolding logged records_of
  logged-enqueues cat [] h = refl
  logged-enqueues cat ((k, r) ∷ m) h =
      ap (λ c. logged codec c (records_of m)) (process_record-enqueue codec cat r h.0)
      ∙ logged-enqueues cat m h.1

  logged-acks :
      (cat : Catalog) (m : Dict Record) → AllEntries IsAck m → logged codec cat (records_of m) ≡ cat
  unfolding logged records_of
  logged-acks cat [] h = refl
  logged-acks cat ((k, r) ∷ m) h =
      ap (λ c. logged codec c (records_of m)) (process_record-ack codec cat r h.0)
      ∙ logged-acks cat m h.1

  pub logged-all_acks :
      (cat : Catalog) (ms : Dict (Dict Record))
      → AllEntries AreAcks ms
      → logged codec cat (records_of_all ms) ≡ cat
  unfolding logged records_of_all
  logged-all_acks cat [] h = refl
  logged-all_acks cat ((k, m) ∷ ms) h =
      logged-++ cat (records_of m) (records_of_all ms)
      ∙ ap (λ c. logged codec c (records_of_all ms)) (logged-acks cat m h.0)
      ∙ logged-all_acks cat ms h.1

  -- The creations.
  process_record-creation :
      (cat : Catalog) (r : Record)
      → (r.op_type == Record.op_create_queue) ≡ true
      → (process_record codec cat r).1 ≡ put cat r.queue_name (Catalog.new_queue_info r.queue_name)
  unfolding process_record Catalog.create_queue
  process_record-creation cat r e = rw e refl

  policy-created :
      (cat : Catalog) (k q sub : GoString)
      → catalog_policy (put cat k (Catalog.new_queue_info k)) q sub
        ≡ (if str_eq k q then some none else catalog_policy cat q sub)
  unfolding catalog_policy get
  policy-created cat k q sub = elim (Bool-cases (str_eq k q)) [
    | inl e ↦ rw (get-put cat k q (Catalog.new_queue_info k), e) refl
    | inr e ↦ rw (get-put cat k q (Catalog.new_queue_info k), e) refl
  ]

  created_absent :
      (cat : Catalog) (m : Dict Record) (q sub : GoString)
      → AllEntries IsCreation m
      → catalog_policy cat q sub ≡ some none
      → catalog_policy (logged codec cat (records_of m)) q sub ≡ some none
  unfolding logged records_of
  created_absent cat [] q sub h e = e
  created_absent cat ((k, r) ∷ m) q sub h e =
      created_absent (process_record codec cat r).1 m q sub h.1 (
        rw (process_record-creation cat r h.0.1) (
          policy-created cat r.queue_name q sub
          ∙ elim (Bool-cases (str_eq r.queue_name q)) [ inl f ↦ rw f refl | inr f ↦ rw f e ]))

  -- What the creations of a map make of a queue that is absent.
  pub creations :
      (cat : Catalog) (m : Dict Record) (q sub : GoString)
      → AllEntries IsCreation m
      → catalog_policy cat q sub ≡ none
      → catalog_policy (logged codec cat (records_of m)) q sub
        ≡ (if has m q then some none else none)
  unfolding logged records_of has get
  creations cat [] q sub h e = e
  creations cat ((k, r) ∷ m) q sub h e = elim (Bool-cases (str_eq k q)) [
    | inl f ↦ rw f (
        created_absent (process_record codec cat r).1 m q sub h.1 (
          rw (process_record-creation cat r h.0.1)
            (policy-created cat r.queue_name q sub ∙ rw (h.0.0, f) refl)))
    | inr f ↦ rw f (
        creations (process_record codec cat r).1 m q sub h.1 (
          rw (process_record-creation cat r h.0.1)
            (policy-created cat r.queue_name q sub ∙ rw (h.0.0, f) e)))
  ]
