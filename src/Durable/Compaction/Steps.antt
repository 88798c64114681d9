-- ===== src/Durable/Compaction/Steps.antt =====
-- durable-mq/coordinator/checkpointing.go: every record of the log keeps the compaction well formed.
use simon_mq.Base.{
  ◌≡◌, refl, ◌∙◌, inl, inr, arith, ◌==◌, Bool, true, false, Option, none, some, List, [], ◌∷◌,
  length, GoString, str_eq_iff, if◌then◌else◌, Bool-cases,
}
use simon_mq.Dict.{Dict, get, has, put, delete}
use simon_mq.Dict.Laws.{has-put}
use simon_mq.Dict.Keys.{put-IsMap, delete-IsMap}
use simon_mq.Model.{SubPolicy}
use simon_mq.Durable.Model.{Codec, Enqueue, Ack}
use simon_mq.Durable.Record
use simon_mq.Durable.Record.{Record}
use simon_mq.Durable.Compaction.{
  CompactionState, apply_record, apply_records, apply_enqueue, apply_ack, apply_update_sub_policy,
  apply_delete_sub_policy, note_update, note_delete, note_enqueue, note_ack, change_subs, or_empty,
  drop_sub,
}
use simon_mq.Durable.Compaction.Good.{
  IsEnqueue, IsAck, AreAcks, IsUpdate, AreUpdates, Good, create-Good, delete-Good, forget-Good,
}
use simon_mq.Dict.Entries.{put-AllEntries, delete-AllEntries, get-AllEntries}

module _ (codec : Codec) where
  change-Good :
      (f : Dict Record → Dict Record) (o : Option (Dict Record)) (s : CompactionState)
      (q : GoString)
      → ((m : Dict Record) → AreUpdates codec q m → AreUpdates codec q (f m))
      → get s.created_subs q ≡ o
      → Good codec s
      → Good codec (change_subs o s q f)
  unfolding has
  change-Good f none s q keeps e g = g
  change-Good f (some subs) s q keeps e g =
      let present : has s.created_subs q ≡ true = rw e refl in
      record {
        queues = g.queues;
        subs_map = put-IsMap s.created_subs q (f subs) g.subs_map;
        subs =
            put-AllEntries (AreUpdates codec) s.created_subs q (f subs) g.subs
              (keeps subs (get-AllEntries (AreUpdates codec) s.created_subs q subs g.subs e));
        same_queues = λ j.
            g.same_queues j
            ∙ ground (arith, has-put s.created_subs q j (f subs), str_eq_iff q j, present);
        messages = g.messages;
        acks = g.acks;
      }

  update-Good :
      (o : Option SubPolicy) (s : CompactionState) (r : Record)
      → codec.decode_sub_policy r.payload ≡ o
      → (r.op_type == Record.op_update_sub_policy) ≡ true
      → Good codec s
      → Good codec (note_update o s r)
  update-Good none s r e op g = g
  update-Good (some p) s r e op g =
      change-Good (λ subs. put subs p.sub_name r) (get s.created_subs r.queue_name) s r.queue_name
        (λ m h. (
          put-IsMap m p.sub_name r h.0,
          put-AllEntries (IsUpdate codec r.queue_name) m p.sub_name r h.1
              (record { queue = refl; op = op; policy = p; decodes = e; named = refl }),
        ))
        refl g

  remove-Good :
      (o : Option SubPolicy) (s : CompactionState) (r : Record)
      → Good codec s
      → Good codec (note_delete o s r)
  remove-Good none s r g = g
  remove-Good (some p) s r g =
      change-Good (λ subs. delete subs p.sub_name) (get s.created_subs r.queue_name) s r.queue_name
        (λ m h. (
          delete-IsMap m p.sub_name h.0,
          delete-AllEntries (IsUpdate codec r.queue_name) m p.sub_name h.1,
        ))
        refl g

  enqueue-Good :
      (o : Option Enqueue) (s : CompactionState) (r : Record)
      → (r.op_type == Record.op_enqueue) ≡ true
      → Good codec s
      → Good codec (note_enqueue o s r)
  enqueue-Good none s r op g = g
  enqueue-Good (some e) s r op g = elim (Bool-cases (length e.sub_list == 0)) [
    | inl h ↦ rw h g
    | inr h ↦ rw h (record {
      queues = g.queues;
      subs_map = g.subs_map;
      subs = g.subs;
      same_queues = g.same_queues;
      messages = put-AllEntries IsEnqueue s.in_flight_messages e.msg_id r g.messages op;
      acks = g.acks;
    })
  ]

  either-Good :
      (b : Bool) (x y : CompactionState)
      → Good codec x
      → Good codec y
      → Good codec (if b then x else y)
  either-Good true x y f g = f
  either-Good false x y f g = g

  acks_of :
      (o : Option (Dict Record)) (s : CompactionState) (id : GoString)
      → get s.in_flight_acks id ≡ o
      → Good codec s
      → AreAcks id (or_empty o)
  acks_of none s id e g = tt
  acks_of (some m) s id e g = get-AllEntries AreAcks s.in_flight_acks id m g.acks e

  ack-Good :
      (o : Option Ack) (s : CompactionState) (r : Record)
      → (r.op_type == Record.op_ack) ≡ true
      → Good codec s
      → Good codec (note_ack o s r)
  ack-Good none s r op g = g
  ack-Good (some a) s r op g = either-Good _ _ _ (forget-Good codec _ a.msg_id noted) noted
    where
      noted : Good codec (record s {
        remaining_subs =
            drop_sub (get s.remaining_subs a.msg_id) s.remaining_subs a.msg_id a.sub_name;
        in_flight_acks =
            put s.in_flight_acks a.msg_id
              (put (or_empty (get s.in_flight_acks a.msg_id)) a.sub_name r);
      })
      noted = record {
        queues = g.queues;
        subs_map = g.subs_map;
        subs = g.subs;
        same_queues = g.same_queues;
        messages = g.messages;
        acks = put-AllEntries AreAcks s.in_flight_acks a.msg_id _ g.acks (
            put-AllEntries IsAck (or_empty (get s.in_flight_acks a.msg_id)) a.sub_name r
              (acks_of (get s.in_flight_acks a.msg_id) s a.msg_id refl g) op);
      }

  step-Good :
      (s : CompactionState) (r : Record) → Good codec s → Good codec (apply_record codec s r)
  unfolding apply_record apply_enqueue apply_ack apply_update_sub_policy apply_delete_sub_policy
  step-Good s r g = elim (Bool-cases (r.op_type == Record.op_enqueue)) [
    | inl e ↦
        rw (e, apply_record)
          (either-Good _ _ _ (enqueue-Good (codec.decode_enqueue r.payload) s r e g) g)
    | inr e1 ↦ elim (Bool-cases (r.op_type == Record.op_ack)) [
      | inl e ↦ rw (e1, e, apply_record) (ack-Good (codec.decode_ack r.payload) s r e g)
      | inr e2 ↦ elim (Bool-cases (r.op_type == Record.op_create_queue)) [
        | inl e ↦ rw (e1, e2, e, apply_record) (create-Good codec s r e g)
        | inr e3 ↦ elim (Bool-cases (r.op_type == Record.op_delete_queue)) [
          | inl e ↦ rw (e1, e2, e3, e, apply_record) (delete-Good codec s r g)
          | inr e4 ↦ elim (Bool-cases (r.op_type == Record.op_update_sub_policy)) [
            | inl e ↦
                rw (e1, e2, e3, e4, e, apply_record)
                  (update-Good (codec.decode_sub_policy r.payload) s r refl e g)
            | inr e5 ↦
                rw (e1, e2, e3, e4, e5, apply_record)
                  (either-Good _ _ _ (remove-Good (codec.decode_sub_policy r.payload) s r g) g)
          ]
        ]
      ]
    ]
  ]

  pub apply_records-Good :
      (s : CompactionState) (rs : List Record)
      → Good codec s
      → Good codec (apply_records codec s rs)
  unfolding apply_records
  apply_records-Good s [] g = g
  apply_records-Good s (r ∷ rs) g = apply_records-Good (apply_record codec s r) rs (step-Good s r g)
