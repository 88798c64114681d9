-- ===== src/Durable/Compaction/Good.antt =====
-- durable-mq/coordinator/checkpointing.go: what the records that a compaction keeps are.
use simon_mq.Base.{
  ◌≡◌, refl, inl, inr, arith, ◌==◌, true, some, [], ◌∷◌, GoString, str_eq, Bool-cases,
}
use simon_mq.Dict.{Dict, get, has}
use simon_mq.Dict.Entries.{AllEntries, put-AllEntries, delete-AllEntries}
use simon_mq.Dict.Laws.{has-put, has-delete}
use simon_mq.Dict.Keys.{IsMap, put-IsMap, delete-IsMap}
use simon_mq.Model.{SubPolicy}
use simon_mq.Durable.Model.{Codec}
use simon_mq.Durable.Record
use simon_mq.Durable.Record.{Record}
use simon_mq.Durable.Compaction.{
  CompactionState, new_compaction_state, apply_create_queue, apply_delete_queue, forget_messages_of,
  forget_message,
}

abbrev pub IsCreation : GoString → Record → Type 0
IsCreation k r = (r.queue_name ≡ k) × ((r.op_type == Record.op_create_queue) ≡ true)

abbrev pub IsEnqueue : GoString → Record → Type 0
IsEnqueue k r = (r.op_type == Record.op_enqueue) ≡ true

abbrev pub IsAck : GoString → Record → Type 0
IsAck k r = (r.op_type == Record.op_ack) ≡ true

abbrev pub AreAcks : GoString → Dict Record → Type 0
AreAcks k m = AllEntries IsAck m

module _ (codec : Codec) where
  pub record IsUpdate (q sub : GoString) (r : Record) : Type 0 where
    pub queue : r.queue_name ≡ q
    pub op : (r.op_type == Record.op_update_sub_policy) ≡ true
    pub policy : SubPolicy
    pub decodes : codec.decode_sub_policy r.payload ≡ some policy
    pub named : policy.sub_name ≡ sub

  abbrev pub AreUpdates : GoString → Dict Record → Type 0
  AreUpdates q m = IsMap m × AllEntries (IsUpdate q) m

  pub record Good (s : CompactionState) : Type 0 where
    pub queues : AllEntries IsCreation s.created_queues
    pub subs_map : IsMap s.created_subs
    pub subs : AllEntries AreUpdates s.created_subs
    pub same_queues : (q : GoString) → has s.created_queues q ≡ has s.created_subs q
    pub messages : AllEntries IsEnqueue s.in_flight_messages
    pub acks : AllEntries AreAcks s.in_flight_acks

  pub new-Good : Good new_compaction_state
  unfolding has get
  new-Good = record {
    queues = tt;
    subs_map = tt;
    subs = tt;
    same_queues = λ q. refl;
    messages = tt;
    acks = tt;
  }

  pub create-Good :
      (s : CompactionState) (r : Record)
      → (r.op_type == Record.op_create_queue) ≡ true
      → Good s
      → Good (apply_create_queue s r)
  unfolding apply_create_queue
  create-Good s r e g = record {
    queues = put-AllEntries IsCreation s.created_queues r.queue_name r g.queues (refl, e);
    subs_map = put-IsMap s.created_subs r.queue_name [] g.subs_map;
    subs = put-AllEntries AreUpdates s.created_subs r.queue_name [] g.subs (tt, tt);
    same_queues = λ q. ground (
      arith,
      has-put s.created_queues r.queue_name q r,
      has-put s.created_subs r.queue_name q [],
      g.same_queues q,
    );
    messages = g.messages;
    acks = g.acks;
  }

  pub forget-Good : (s : CompactionState) (id : GoString) → Good s → Good (forget_message s id)
  forget-Good s id g = record {
    queues = g.queues;
    subs_map = g.subs_map;
    subs = g.subs;
    same_queues = g.same_queues;
    messages = delete-AllEntries IsEnqueue s.in_flight_messages id g.messages;
    acks = delete-AllEntries AreAcks s.in_flight_acks id g.acks;
  }

  forgets-Good :
      (s : CompactionState) (q : GoString) (m : Dict Record)
      → Good s
      → Good (forget_messages_of s q m)
  unfolding forget_messages_of
  forgets-Good s q [] g = g
  forgets-Good s q ((k, r) ∷ m) g = elim (Bool-cases (str_eq r.queue_name q)) [
    | inl e ↦ rw (e, forget_messages_of) (forgets-Good (forget_message s k) q m (forget-Good s k g))
    | inr e ↦ rw (e, forget_messages_of) (forgets-Good s q m g)
  ]

  pub delete-Good : (s : CompactionState) (r : Record) → Good s → Good (apply_delete_queue s r)
  unfolding apply_delete_queue
  delete-Good s r g = forgets-Good _ r.queue_name s.in_flight_messages (record {
    queues = delete-AllEntries IsCreation s.created_queues r.queue_name g.queues;
    subs_map = delete-IsMap s.created_subs r.queue_name g.subs_map;
    subs = delete-AllEntries AreUpdates s.created_subs r.queue_name g.subs;
    same_queues = λ q. ground (
      arith,
      has-delete s.created_queues r.queue_name q,
      has-delete s.created_subs r.queue_name q,
      g.same_queues q,
    );
    messages = g.messages;
    acks = g.acks;
  })
