-- ===== src/Durable/Compaction/Kept.antt =====
-- durable-mq/coordinator/checkpointing.go: every record of the log moves the compaction and the
-- catalog alike.
use simon_mq.Base.{
  ◌≡◌, refl, ◌==◌, inl, inr, Bool, true, false, Option, none, some, List, [], ◌∷◌, length, GoString,
  str_eq, if◌then◌else◌, Bool-cases,
}
use simon_mq.Dict.{get, has, put, delete}
use simon_mq.Dict.Laws.{get-put, get-delete}
use simon_mq.Model.{SubPolicy}
use simon_mq.Durable.Model.{Codec, Enqueue, Ack}
use simon_mq.Durable.Record
use simon_mq.Durable.Record.{Record}
use simon_mq.Durable.Catalog
use simon_mq.Durable.Catalog.{Catalog, QueueInfo, process_record}
use simon_mq.Durable.Coordinator.Logged.{logged, process_record-enqueue, process_record-ack}
use simon_mq.Durable.Compaction.{
  CompactionState, apply_record, apply_records, apply_create_queue, apply_delete_queue,
  apply_enqueue, apply_ack, apply_update_sub_policy, apply_delete_sub_policy, new_compaction_state,
  note_update, note_delete, note_enqueue, note_ack,
}
use simon_mq.Durable.Compaction.Policies.{
  catalog_policy, kept_policy, set_at, unset_at, Agree, created_subs-forget, Agree-change,
}

module _ (codec : Codec) where
  same_subs :
      (s s' : CompactionState) (cat : Catalog)
      → s'.created_subs ≡ s.created_subs
      → Agree codec s cat
      → Agree codec s' cat
  unfolding kept_policy
  same_subs s s' cat e h q sub = rw e (h q sub)

  enqueue-subs :
      (s : CompactionState) (r : Record) → (apply_enqueue codec s r).created_subs ≡ s.created_subs
  unfolding apply_enqueue has
  enqueue-subs s r = noted (codec.decode_enqueue r.payload) (has s.created_queues r.queue_name)
    where
      noted :
          (o : Option Enqueue) (b : Bool)
          → (if b then note_enqueue o s r else s).created_subs ≡ s.created_subs
      noted o false = refl
      noted none true = refl
      noted (some e) true = elim (Bool-cases (length e.sub_list == 0)) [
        | inl h ↦ rw h refl
        | inr h ↦ rw h refl
      ]

  ack-subs :
      (s : CompactionState) (r : Record) → (apply_ack codec s r).created_subs ≡ s.created_subs
  unfolding apply_ack
  ack-subs s r = noted (codec.decode_ack r.payload)
    where
      either :
          (b : Bool) (x y : CompactionState)
          → x.created_subs ≡ s.created_subs
          → y.created_subs ≡ s.created_subs
          → (if b then x else y).created_subs ≡ s.created_subs
      either true x y e f = e
      either false x y e f = f

      noted : (o : Option Ack) → (note_ack o s r).created_subs ≡ s.created_subs
      noted none = refl
      noted (some a) = either _ _ _ refl refl

  create-Agree :
      (s : CompactionState) (cat : Catalog) (r : Record)
      → Agree codec s cat
      → Agree codec (apply_create_queue s r) (Catalog.create_queue cat r.queue_name)
  unfolding kept_policy catalog_policy apply_create_queue Catalog.create_queue get
  create-Agree s cat r h q sub = elim (Bool-cases (str_eq r.queue_name q)) [
    | inl e ↦
        rw
          (
            get-put s.created_subs r.queue_name q [],
            get-put cat r.queue_name q (Catalog.new_queue_info r.queue_name),
            e,
          )
          refl
    | inr e ↦
        rw
          (
            get-put s.created_subs r.queue_name q [],
            get-put cat r.queue_name q (Catalog.new_queue_info r.queue_name),
            e,
          )
          (h q sub)
  ]

  delete-Agree :
      (s : CompactionState) (cat : Catalog) (r : Record)
      → Agree codec s cat
      → Agree codec (apply_delete_queue s r) (Catalog.remove_queue cat r.queue_name)
  unfolding kept_policy catalog_policy apply_delete_queue Catalog.remove_queue
  delete-Agree s cat r h q sub =
      rw
        (created_subs-forget codec
          (record s {
            created_queues = delete s.created_queues r.queue_name;
            created_subs = delete s.created_subs r.queue_name;
          })
          r.queue_name s.in_flight_messages)
        (elim (Bool-cases (str_eq r.queue_name q)) [
          | inl e ↦
              rw (get-delete s.created_subs r.queue_name q, get-delete cat r.queue_name q, e) refl
          | inr e ↦
              rw (get-delete s.created_subs r.queue_name q, get-delete cat r.queue_name q, e)
                (h q sub)
        ])

  update-Agree :
      (s : CompactionState) (cat : Catalog) (r : Record) (o : Option SubPolicy)
      → codec.decode_sub_policy r.payload ≡ o
      → Agree codec s cat
      → Agree codec (note_update o s r) (Catalog.put_policy o cat r.queue_name).1
  update-Agree s cat r none e h = h
  update-Agree s cat r (some p) e h =
      Agree-change codec (λ m. put m p.sub_name r) (λ m. put m p.sub_name p) (set_at codec p) s cat
        r.queue_name
        (λ sub m. elim (Bool-cases (str_eq p.sub_name sub)) [
          | inl b ↦ rw (get-put m p.sub_name sub r, b) e
          | inr b ↦ rw (get-put m p.sub_name sub r, b) refl
        ])
        (λ sub m. get-put m p.sub_name sub p) h

  remove-Agree :
      (s : CompactionState) (cat : Catalog) (r : Record) (o : Option SubPolicy)
      → Agree codec s cat
      → Agree codec (note_delete o s r) (Catalog.delete_policy o cat r.queue_name).1
  remove-Agree s cat r none h = h
  remove-Agree s cat r (some p) h =
      Agree-change codec (λ m. delete m p.sub_name) (λ m. delete m p.sub_name) (unset_at codec p) s
        cat r.queue_name
        (λ sub m. elim (Bool-cases (str_eq p.sub_name sub)) [
          | inl b ↦ rw (get-delete m p.sub_name sub, b) refl
          | inr b ↦ rw (get-delete m p.sub_name sub, b) refl
        ])
        (λ sub m. get-delete m p.sub_name sub) h

  retarget :
      (s : CompactionState) (cat cat' : Catalog)
      → cat' ≡ cat
      → Agree codec s cat
      → Agree codec s cat'
  unfolding catalog_policy
  retarget s cat cat' e h q sub = rw e (h q sub)

  -- The switches of both sides, over the same tests.
  abbrev outcome_of :
      (b3 b4 b5 b6 b7 b8 : Bool) (o3 o4 o5 o6 o7 o8 o9 : Catalog.Outcome) → Catalog.Outcome
  outcome_of b3 b4 b5 b6 b7 b8 o3 o4 o5 o6 o7 o8 o9 =
      if b3
      then o3
      else if b4
      then o4
      else if b5
      then o5
      else if b6
      then o6
      else if b7
      then o7
      else if b8
      then o8
      else o9

  module _ (s1 s2 s3 s4 s5 s6 s7 : CompactionState) (o3 o4 o5 o6 o7 o8 o9 : Catalog.Outcome)
      (h3 : Agree codec s3 o3.1) (h4 : Agree codec s4 o4.1) (h5 : Agree codec s5 o5.1)
      (h6 : Agree codec s6 o6.1) (h7 : Agree codec s7 o7.1) (h8 : Agree codec s7 o8.1)
      (h9 : Agree codec s7 o9.1) where
    switches :
        (b1 b2 b3 b4 b5 b6 b7 b8 : Bool)
        → (b1 ≡ true → Agree codec s1 (outcome_of b3 b4 b5 b6 b7 b8 o3 o4 o5 o6 o7 o8 o9).1)
        → (b2 ≡ true → Agree codec s2 (outcome_of b3 b4 b5 b6 b7 b8 o3 o4 o5 o6 o7 o8 o9).1)
        → Agree codec
            (if b1
              then s1
              else if b2
              then s2
              else if b3
              then s3
              else if b4
              then s4
              else if b5
              then s5
              else if b6
              then s6
              else s7)
            (outcome_of b3 b4 b5 b6 b7 b8 o3 o4 o5 o6 o7 o8 o9).1
    switches true b2 b3 b4 b5 b6 b7 b8 h1 h2 = h1 refl
    switches false true b3 b4 b5 b6 b7 b8 h1 h2 = h2 refl
    switches false false true b4 b5 b6 b7 b8 h1 h2 = h3
    switches false false false true b5 b6 b7 b8 h1 h2 = h4
    switches false false false false true b6 b7 b8 h1 h2 = h5
    switches false false false false false true b7 b8 h1 h2 = h6
    switches false false false false false false true b8 h1 h2 = h7
    switches false false false false false false false true h1 h2 = h8
    switches false false false false false false false false h1 h2 = h9

  step :
      (s : CompactionState) (cat : Catalog) (r : Record)
      → Agree codec s cat
      → Agree codec (apply_record codec s r) (process_record codec cat r).1
  unfolding apply_record process_record apply_update_sub_policy apply_delete_sub_policy
      Catalog.update_sub_policy Catalog.remove_sub_policy
  step s cat r h =
      switches (apply_enqueue codec s r) (apply_ack codec s r) _ _ _ _ s _ _ _ _ _ _ _
        (create-Agree s cat r h) (delete-Agree s cat r h)
        (update-Agree s cat r (codec.decode_sub_policy r.payload) refl h)
        (remove-Agree s cat r (codec.decode_sub_policy r.payload) h) h h h
        (r.op_type == Record.op_enqueue) (r.op_type == Record.op_ack)
        (r.op_type == Record.op_create_queue) (r.op_type == Record.op_delete_queue)
        (r.op_type == Record.op_update_sub_policy) (r.op_type == Record.op_delete_sub_policy)
        (r.op_type == Record.op_begin_checkpoint) (r.op_type == Record.op_end_checkpoint)
        (λ e.
          retarget (apply_enqueue codec s r) cat _ (process_record-enqueue codec cat r e)
            (same_subs s (apply_enqueue codec s r) cat (enqueue-subs s r) h))
        (λ e.
          retarget (apply_ack codec s r) cat _ (process_record-ack codec cat r e)
            (same_subs s (apply_ack codec s r) cat (ack-subs s r) h))

  steps :
      (s : CompactionState) (cat : Catalog) (recs : List Record)
      → Agree codec s cat
      → Agree codec (apply_records codec s recs) (logged codec cat recs)
  unfolding apply_records logged
  steps s cat [] h = h
  steps s cat (r ∷ recs) h =
      steps (apply_record codec s r) (process_record codec cat r).1 recs (step s cat r h)

  -- For any records, the queues that the compaction keeps are those of the catalog that the records
  -- make, and for every subscriber of each the record it keeps holds the policy the catalog has.
  pub kept_policies_are_the_catalog :
      (recs : List Record) (q sub : GoString)
      → kept_policy codec (apply_records codec new_compaction_state recs) q sub
        ≡ catalog_policy (logged codec [] recs) q sub
  unfolding kept_policy catalog_policy get
  kept_policies_are_the_catalog recs = steps new_compaction_state [] recs (λ q sub. refl)
