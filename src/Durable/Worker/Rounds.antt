-- ===== src/Durable/Worker/Rounds.antt =====
-- durable-mq/queue/worker.go: what a round does for each subscriber.
use simon_mq.Base.{
  ℕ, ◌+◌, ◌≡◌, refl, ◌∙◌, sym, ap, Bool, true, false, ◌||◌, Option, none, some, [], ◌∷◌, arith,
  GoString, str_eq, str_eq_iff, str_eq_refl, if◌then◌else◌,
}
use simon_mq.Dict.{Dict, get, has, put}
use simon_mq.Dict.Laws.{get-put, has-put}
use simon_mq.Dict.Keys.{IsMap}
use simon_mq.Dict.Entries.{AllEntries}
use simon_mq.Model.{SubPolicy, or_zero, limit_of}
use simon_mq.Pending.{IsNamed, retries_after, is_finished}
use simon_mq.Durable.Model.{Codec}
use simon_mq.Durable.Record
use simon_mq.Durable.Wal.Writer
use simon_mq.Durable.Wal.Writer.{Io, Appended}
use simon_mq.Durable.Wal.Log
use simon_mq.Durable.Wal.Log.{Log, syncs, accepts}
use simon_mq.Durable.Wal.Log.Replies.{is_ok, append_lem}
use simon_mq.Durable.Coordinator.{
  Coordinator, Result, ok, err, append_failed, new_record, replied, log_only, ack,
}
use simon_mq.Durable.Worker.{
  DeliveryResult, counted, note_ack, results_of, Round, note_result, note_results,
}

-- Whether the append of an ack is accepted, in a log of this kind.
abbrev pub acks_ok : Option Bool → (GoString → Io) → GoString → Bool
acks_ok kind io name = accepts kind (io name)

-- A subscriber leaves the round acked if it took the message or is out of attempts, and the append
-- of its ack succeeds.
abbrev pub acked_by :
    (SubPolicy → Bool) → (GoString → Bool) → Option SubPolicy → Option ℕ → GoString → Bool
acked_by sent append_ok p n k = if append_ok k then is_finished sent p n else false

module _ (codec : Codec) (io : Io) (c : Coordinator) (queue_name msg_id sub_name : GoString) where
  -- The reply of an ack, and that it keeps the kind of the log.
  ack_lem :
      ((ack codec io c queue_name msg_id sub_name).0
        ≡ (if accepts (syncs c.log) io then ok tt else err append_failed))
      × (syncs (ack codec io c queue_name msg_id sub_name).1.log ≡ syncs c.log)
  unfolding ack log_only
  ack_lem =
      let r =
        new_record Record.op_ack queue_name
          (codec.encode_ack (record { msg_id = msg_id; sub_name = sub_name })) in
      let (said, kept) = append_lem io c.log r in
      let (reply, log) = replied_lem (Log.append io c.log r) in
      (reply ∙ ap (λ b. if b then ok tt else err append_failed) said, ap syncs log ∙ kept)
    where
      replied_lem :
          (o : Appended × Log)
          → ((replied codec io {A = Unit {0}} c tt o).0
              ≡ (if is_ok o.0 then ok tt else err append_failed))
            × ((replied codec io {A = Unit {0}} c tt o).1.log ≡ o.1)
      replied_lem (Writer.ok n, log) = (refl, refl)
      replied_lem (Writer.failed, log) = (refl, refl)

note_ack_lem :
    (b : Bool) (o : Result (Unit {0}) × Coordinator) (s : Round) (name : GoString)
    → o.0 ≡ (if b then ok tt else err append_failed)
    → note_ack o s name ≡ (
        if b
        then record s {
          cord = o.1;
          msg = record s.msg { acked_subs = put s.msg.acked_subs name tt };
        }
        else record s { cord = o.1; any_subs_remaining = true })
note_ack_lem true (ok u, cord) s name e = refl
note_ack_lem true (err x, cord) s name e = absurd cc
note_ack_lem false (ok u, cord) s name e = absurd cc
note_ack_lem false (err x, cord) s name e = refl

module _ (codec : Codec) (queue_name : GoString) (io : GoString → Io) (kind : Option Bool)
    (sent : SubPolicy → Bool) where
  -- One result, for a subscriber of the pending ones.
  pub record Noted (s s' : Round) (name : GoString) (p : SubPolicy) (k : GoString) : Type 0 where
    pub retries : get s'.msg.retry_map k ≡ (
        if str_eq name k
        then retries_after sent (some p) (get s.msg.retry_map k)
        else get s.msg.retry_map k)
    pub acks : has s'.msg.acked_subs k ≡ (
        has s.msg.acked_subs k
        || (if str_eq name k
            then acked_by sent (acks_ok kind io) (some p) (get s.msg.retry_map k) k
            else false))
    pub remaining : s'.any_subs_remaining ≡ (
        s.any_subs_remaining
        || (if acked_by sent (acks_ok kind io) (some p) (get s.msg.retry_map name) name
            then false
            else true))
    pub snapshot : s'.msg.sub_policy_snapshot ≡ s.msg.sub_policy_snapshot
    pub kept_kind : syncs s'.cord.log ≡ kind

  pub note_result_lem :
      (policies : Dict SubPolicy) (s : Round) (p : SubPolicy) (name k : GoString)
      → syncs s.cord.log ≡ kind
      → get policies name ≡ some p
      → Noted s
          (note_result codec queue_name io policies s
            (record { sub_name = name; success = sent p }))
          name
          p
          k
  unfolding note_result
  note_result_lem policies s p name k same_kind g =
      let at : str_eq name k ≡ true → name ≡ k = (str_eq_iff name k).0 in
      let limit : limit_of (get policies name) ≡ p.number_of_retries = ap limit_of g in
      let tried = get-put s.msg.retry_map name k (or_zero (get s.msg.retry_map name) + 1) in
      let taken = has-put s.msg.acked_subs name k tt in
      let old : str_eq name k ≡ true → get s.msg.retry_map name ≡ get s.msg.retry_map k =
        λ e. ap (get s.msg.retry_map) (at e) in
      let same : str_eq name k ≡ true → acks_ok kind io name ≡ acks_ok kind io k =
        λ e. ap (acks_ok kind io) (at e) in
      let o = ack codec (io name) s.cord queue_name s.msg.msg_id name in
      let (reply, kept) = ack_lem codec (io name) s.cord queue_name s.msg.msg_id name in
      let result : DeliveryResult = record { sub_name = name; success = sent p } in
      let noted =
        note_ack_lem (acks_ok kind io name) o (record s { msg = counted s.msg result }) name
          (reply ∙ ap (λ m. if accepts m (io name) then ok tt else err append_failed) same_kind) in
      rw noted (record {
        retries = ground (arith, tried, old, limit);
        acks = ground (arith, taken, old, limit, same);
        remaining = ground (arith, limit);
        snapshot = ground (arith, limit);
        kept_kind = ground (arith, kept, same_kind);
      })

  -- The rest of the results, for the subscribers of `rest`.
  pub record NotedAll (s s' : Round) (rest : Dict SubPolicy) (k : GoString) : Type 0 where
    pub all_retries :
        get s'.msg.retry_map k ≡ retries_after sent (get rest k) (get s.msg.retry_map k)
    pub all_acks : has s'.msg.acked_subs k ≡ (
        has s.msg.acked_subs k
        || acked_by sent (acks_ok kind io) (get rest k) (get s.msg.retry_map k) k)
    pub all_snapshot : s'.msg.sub_policy_snapshot ≡ s.msg.sub_policy_snapshot

  pub note_results_lem :
      (policies : Dict SubPolicy) (s : Round) (rest : Dict SubPolicy) (k : GoString)
      → syncs s.cord.log ≡ kind
      → IsMap rest
      → AllEntries IsNamed rest
      → ((j : GoString) (p : SubPolicy) → get rest j ≡ some p → get policies j ≡ some p)
      → NotedAll s (note_results codec queue_name io policies s (results_of sent rest)) rest k
  unfolding note_results results_of get
  note_results_lem policies s [] k same_kind m n sub = record {
    all_retries = refl;
    all_acks = ground arith;
    all_snapshot = refl;
  }
  note_results_lem policies s ((j, p) ∷ rest) k same_kind m n sub =
      let now =
        note_result_lem policies s p p.sub_name k same_kind
          (ap (get policies) n.0 ∙ sub j p (ground (arith, str_eq_refl j))) in
      let later =
        note_results_lem policies
          (note_result codec queue_name io policies s
            (record { sub_name = p.sub_name; success = sent p }))
          rest k now.kept_kind m.1 n.1 (λ i q e. sub i q (ground (arith, str_eq_iff j i, m.0))) in
      let same : str_eq p.sub_name k ≡ str_eq j k = ap (λ i. str_eq i k) n.0 in
      let gone : str_eq j k ≡ true → get rest k ≡ none =
        λ e. ap (get rest) (sym ((str_eq_iff j k).0 e)) ∙ m.0 in
      record {
        all_retries = ground (arith, now.retries, later.all_retries, same, gone);
        all_acks = ground (arith, now.acks, now.retries, later.all_acks, same, gone);
        all_snapshot = later.all_snapshot ∙ now.snapshot;
      }
