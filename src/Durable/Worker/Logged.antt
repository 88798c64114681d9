-- ===== src/Durable/Worker/Logged.antt =====
-- durable-mq/queue/worker.go: an ack that a worker remembers is in the log.
use simon_mq.Base.{
  ◌≢◌, refl, subst, none, ℕ, ◌≡◌, ◌∙◌, sym, inl, inr, Bool, true, false, some, List, [], ◌∷◌, arith,
  GoString, str_eq, str_eq_iff, Bool-cases,
}
use simon_mq.Dict.{Dict, has}
use simon_mq.Dict.Laws.{has-put}
use simon_mq.Model.{SubPolicy}
use simon_mq.Ring.{Ring}
use simon_mq.Ring.Valid.{Holds}
use simon_mq.Durable.Model.{Codec}
use simon_mq.Durable.Record
use simon_mq.Durable.Record.{Record}
use simon_mq.Durable.Wal.Writer
use simon_mq.Durable.Wal.Writer.{Io, Appended}
use simon_mq.Durable.Wal.Log
use simon_mq.Durable.Wal.Log.{Log, syncs, files_of}
use simon_mq.Durable.Wal.Log.Replies.{is_ok, append_lem}
use simon_mq.Durable.Wal.Log.Kept.{InFiles, Grows, same-Grows, InFiles-grown, append-Grows}
use simon_mq.Durable.Coordinator.{Coordinator, Result, ok, err, new_record, replied, log_only, ack}
use simon_mq.Durable.Worker.{
  QueueMsg, DeliveryResult, policy_by_name, results_of, Round, counted, is_acked, note_ack,
  note_result, note_results, deliver, process_msg,
}
use simon_mq.Durable.Worker.Processed.{process_msg_lem}

-- The record of an ack, without its number.
abbrev pub ack_record : Codec → GoString → GoString → GoString → Record
ack_record codec queue_name msg_id sub_name =
    new_record Record.op_ack queue_name
      (codec.encode_ack (record { msg_id = msg_id; sub_name = sub_name }))

module _ (codec : Codec) (queue_name : GoString) where
  -- For what is acked in memory, a whole record of the ack stands in a segment.
  abbrev pub AcksLogged : Coordinator → QueueMsg → Type 0
  AcksLogged cord msg =
      (k : GoString)
      → has msg.acked_subs k ≡ true
      → (lsn : ℕ) × InFiles (files_of cord.log)
          (record (ack_record codec queue_name msg.msg_id k) { lsn = lsn })

  counted-kept :
      (msg : QueueMsg) (result : DeliveryResult)
      → ((counted msg result).msg_id ≡ msg.msg_id)
        × ((counted msg result).acked_subs ≡ msg.acked_subs)
  counted-kept msg result = (ground arith, ground arith)

  -- A longer log still holds the acks.
  grown_acks :
      (cord cord' : Coordinator) (msg msg' : QueueMsg)
      → Grows (files_of cord.log) (files_of cord'.log)
      → msg'.msg_id ≡ msg.msg_id
      → msg'.acked_subs ≡ msg.acked_subs
      → AcksLogged cord msg
      → AcksLogged cord' msg'
  grown_acks cord cord' msg msg' g id acks h k e =
      let (lsn, there) = h k (rw acks at e) in
      (
        lsn,
        rw id (
            InFiles-grown (files_of cord.log) (files_of cord'.log)
              (record (ack_record codec queue_name msg.msg_id k) { lsn = lsn }) g there),
      )

  -- The outcome of an ack: the log has grown, and holds the record if the ack was accepted.
  pub record Logs (cord : Coordinator) (msg_id sub_name : GoString)
      (o : Result (Unit {0}) × Coordinator) : Type 0 where
    pub kind : syncs o.1.log ≡ syncs cord.log
    pub grown : Grows (files_of cord.log) (files_of o.1.log)
    pub stored :
        o.0 ≡ ok tt
        → (lsn : ℕ) × InFiles
            (files_of o.1.log)
            (record (ack_record codec queue_name msg_id sub_name) { lsn = lsn })

  ack-Logs :
      (io : Io) (cord : Coordinator) (msg_id sub_name : GoString)
      → syncs cord.log ≢ none
      → Logs cord msg_id sub_name (ack codec io cord queue_name msg_id sub_name)
  unfolding ack log_only
  ack-Logs io cord msg_id sub_name ne =
      let r = ack_record codec queue_name msg_id sub_name in
      let (said, kept) = append_lem io cord.log r in
      let (grown, there) = append-Grows io cord.log r ne in
      replied_lem (Log.append io cord.log r) kept grown there
    where
      replied_lem :
          (o : Appended × Log)
          → syncs o.1 ≡ syncs cord.log
          → Grows (files_of cord.log) (files_of o.1)
          → (is_ok o.0 ≡ true
              → (lsn : ℕ) × InFiles
                  (files_of o.1)
                  (record (ack_record codec queue_name msg_id sub_name) { lsn = lsn }))
          → Logs cord msg_id sub_name (replied codec io {A = Unit {0}} cord tt o)
      replied_lem (Writer.ok n, log) k g t = record { kind = k; grown = g; stored = λ e. t refl }
      replied_lem (Writer.failed, log) k g t = record {
        kind = k;
        grown = g;
        stored = λ e. absurd cc;
      }

  -- A round that keeps the log of its kind and the acks in it.
  abbrev Keeps : Round → Round → Type 0
  Keeps s s' =
      AcksLogged s.cord s.msg → (syncs s'.cord.log ≡ syncs s.cord.log) × AcksLogged s'.cord s'.msg

  note_ack-AcksLogged :
      (s : Round) (sub_name : GoString) (o : Result (Unit {0}) × Coordinator)
      → Logs s.cord s.msg.msg_id sub_name o
      → Keeps s (note_ack o s sub_name)
  note_ack-AcksLogged s sub_name (err x, cord) l h =
      (l.kind, grown_acks s.cord cord s.msg s.msg l.grown refl refl h)
  note_ack-AcksLogged s sub_name (ok u, cord) l h = (
    l.kind,
    λ k e. elim (Bool-cases (str_eq sub_name k)) [
      | inl f ↦
          subst
            (λ i.
              (lsn : ℕ) × InFiles (files_of cord.log)
                (record (ack_record codec queue_name s.msg.msg_id i) { lsn = lsn }))
            ((str_eq_iff sub_name k).0 f) (l.stored refl)
      | inr f ↦
          grown_acks s.cord cord s.msg s.msg l.grown refl refl h k
            (ground (arith, has-put s.msg.acked_subs sub_name k tt, e, f))
    ],
  )

  note_result-AcksLogged :
      (io : GoString → Io) (policies : Dict SubPolicy) (s : Round) (result : DeliveryResult)
      → syncs s.cord.log ≢ none
      → Keeps s (note_result codec queue_name io policies s result)
  unfolding note_result
  note_result-AcksLogged io policies s result ne h =
      let (id, acks) = counted-kept s.msg result in
      let tried : Round = record s { msg = counted s.msg result } in
      let still : AcksLogged s.cord (counted s.msg result) =
        grown_acks s.cord s.cord s.msg (counted s.msg result) (same-Grows (files_of s.cord.log)) id
          acks h in
      elim (Bool-cases (is_acked policies s.msg result)) [
        | inl e ↦
            let name = result.sub_name in
            let o = ack codec (io name) s.cord queue_name s.msg.msg_id name in
            rw e (
              note_ack-AcksLogged tried name o
                (subst (λ i. Logs s.cord i name o) (sym id)
                  (ack-Logs (io name) s.cord s.msg.msg_id name ne))
                still)
        | inr e ↦ rw e (refl, still)
      ]

  note_results-AcksLogged :
      (io : GoString → Io) (policies : Dict SubPolicy) (s : Round) (results : List DeliveryResult)
      → syncs s.cord.log ≢ none
      → Keeps s (note_results codec queue_name io policies s results)
  unfolding note_results
  note_results-AcksLogged io policies s [] ne h = (refl, h)
  note_results-AcksLogged io policies s (result ∷ results) ne h =
      let (kind, now) = note_result-AcksLogged io policies s result ne h in
      let (kinds, later) =
        note_results-AcksLogged io policies (note_result codec queue_name io policies s result)
          results (λ e. ne (sym kind ∙ e)) now in
      (kinds ∙ kind, later)

  -- In a round over a message of which every ack in memory has its whole record in a segment of the
  -- log, whatever the requests and the writes and syncs of the acks come to, every ack in memory has
  -- its whole record in a segment afterwards. The log is one with files. (It is not said that a reader gets
  -- as far as the record: torn bytes of an earlier write may stand before it.)
  pub process_msg-AcksLogged :
      (io : GoString → Io) (sent : SubPolicy → Bool) (q : Ring QueueMsg) (xs : List QueueMsg)
      (cord : Coordinator) (msg : QueueMsg)
      → Holds q xs
      → syncs cord.log ≢ none
      → AcksLogged cord msg
      → (s : Round) × (q' : Ring QueueMsg) × (process_msg codec queue_name io sent q cord msg
          ≡ some (s, q'))
        × AcksLogged s.cord s.msg
  unfolding deliver
  process_msg-AcksLogged io sent q xs cord msg h ne logged =
      let (q', made, _) = process_msg_lem codec queue_name io sent q xs cord msg h in
      let (_, kept) =
        note_results-AcksLogged io (policy_by_name msg)
          (record { cord = cord; msg = msg; any_subs_remaining = false })
          (results_of sent (policy_by_name msg)) ne logged in
      (deliver codec queue_name io sent cord msg, q', made, kept)
