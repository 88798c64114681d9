-- ===== src/Durable/Coordinator/Replayed.antt =====
-- durable-mq/coordinator/coordinator.go: an ack that reaches the log after its queue's deletion.
use simon_mq.Base.{
  Option, ◌^◌, ◌<◌, ◌≢◌, length, ℕ, ◌+◌, ◌≡◌, refl, ◌∙◌, sym, ap, true, none, some, List, [], ◌∷◌,
  ◌++◌, GoString,
}
use simon_mq.Dict.{get, delete}
use simon_mq.Dict.Laws.{get-delete_self}
use simon_mq.Durable.Model.{Codec, Ack}
use simon_mq.Durable.Record
use simon_mq.Durable.Record.{Record}
use simon_mq.Durable.Catalog
use simon_mq.Durable.Catalog.{process_record}
use simon_mq.Durable.Delivery.{no_queue, process_ack, delete_queue_messages}
use simon_mq.Durable.Coordinator.Logged.{logged}
use simon_mq.Durable.Wal.Writer.{Mode, mode_off, fine}
use simon_mq.Durable.Wal.Writer.Sessions.{SessionFits, numbered_from, numbered_from-append}
use simon_mq.Durable.Wal.Reader.{EndCheckpoint}
use simon_mq.Durable.Wal.Log.{Log, on, open_with_options}
use simon_mq.Durable.Coordinator.Runs.{
  Call, call_delete, call_ack, new_coordinator, calls, trace, trace-append, delete_queue-ok, ack-ok,
}
use simon_mq.Durable.Coordinator.Restart.{torn_files, session_of, enough, restarted_lem}
use simon_mq.Durable.Coordinator.{
  CoordError, Replay, Result, ok, err, delivery_error, new_record, new_replay, delete_queue, ack,
  ReplayResult, replayed, outcome, replay_log, replay_record, replay_records,
}

module _ (codec : Codec) where
  abbrev deletion : ℕ → GoString → Record
  deletion lsn q = record (new_record Record.op_delete_queue q []) { lsn = lsn }

  abbrev ack_of : ℕ → GoString → Ack → Record
  ack_of lsn q a = record (new_record Record.op_ack q (codec.encode_ack a)) { lsn = lsn }

  -- Once a queue is deleted, an ack for it is an error.
  replay_record-deletion :
      (s : Replay) (q : GoString) (i : ℕ)
      → replay_record codec s (deletion i q)
        ≡ ok (record { cat = delete s.cat q; deli = delete s.deli q })
  unfolding replay_record process_record delete_queue_messages Catalog.remove_queue
  replay_record-deletion s q i = refl

  replay_record-ack :
      (s : Replay) (q : GoString) (a : Ack) (j : ℕ)
      → codec.decode_ack (codec.encode_ack a) ≡ some a
      → get s.deli q ≡ none
      → replay_record codec s (ack_of j q a) ≡ err (delivery_error (no_queue q))
  unfolding replay_record process_ack
  replay_record-ack s q a j d e = rw (d, e) refl

  replay_records-ok :
      (s s1 : Replay) (r : Record) (rs : List Record)
      → replay_record codec s r ≡ ok s1
      → replay_records codec s (r ∷ rs) ≡ replay_records codec s1 rs
  unfolding replay_records
  replay_records-ok s s1 r rs e = rw (e, replay_records) refl

  replay_records-err :
      (s : Replay) (r : Record) (rs : List Record) (x : CoordError)
      → replay_record codec s r ≡ err x
      → replay_records codec s (r ∷ rs) ≡ err x
  unfolding replay_records
  replay_records-err s r rs x e = rw (e, replay_records) refl

  deletion_then_ack :
      (s : Replay) (q : GoString) (a : Ack) (i j : ℕ) (rest : List Record)
      → codec.decode_ack (codec.encode_ack a) ≡ some a
      → replay_records codec s (deletion i q ∷ ack_of j q a ∷ rest)
        ≡ err (delivery_error (no_queue q))
  deletion_then_ack s q a i j rest d =
      let s1 : Replay = record { cat = delete s.cat q; deli = delete s.deli q } in
      replay_records-ok s s1 (deletion i q) (ack_of j q a ∷ rest) (replay_record-deletion s q i)
      ∙ replay_records-err s1 (ack_of j q a) rest (delivery_error (no_queue q))
          (replay_record-ack s1 q a j d (get-delete_self s.deli q))

  stuck_at_ack :
      (log : List Record) (s s' : Replay) (q : GoString) (a : Ack) (i j : ℕ) (rest : List Record)
      → codec.decode_ack (codec.encode_ack a) ≡ some a
      → ¬ (replay_records codec s (log ++ deletion i q ∷ ack_of j q a ∷ rest) ≡ ok s')
  unfolding replay_records
  stuck_at_ack [] s s' q a i j rest d h =
      absurd_result (sym (deletion_then_ack s q a i j rest d) ∙ h)
    where
      absurd_result : {e : _} {x : Replay} → ¬ (err e ≡ ok x)
      absurd_result h = cc
  stuck_at_ack (r ∷ log) s s' q a i j rest d h =
      after (λ s1. stuck_at_ack log s1 s' q a i j rest d) (replay_record codec s r) h
    where
      after :
          ((s1 : Replay)
            → ¬ (replay_records codec s1 (log ++ deletion i q ∷ ack_of j q a ∷ rest) ≡ ok s'))
          → (o : Result Replay)
          → ¬ (
              elim o as (λ o. Result Replay) [
                | ok s1 ↦ replay_records codec s1 (log ++ deletion i q ∷ ack_of j q a ∷ rest)
                | err e ↦ err e
              ]
              ≡ ok s')
      after rec (ok s1) h = rec s1 h
      after rec (err x) h = cc

  -- The records of the calls, with the deletion and the ack in their midst.
  trace_lem :
      (xs ys : List Call) (q msg_id sub_name : GoString)
      → Catalog.queue_exists (logged codec [] (trace codec [] xs)) q ≡ true
      → (rest : List Record) × (trace codec []
            (xs ++ call_delete q ∷ call_ack q msg_id sub_name ∷ ys)
          ≡ trace codec [] xs
            ++ deletion 0 q ∷ ack_of 0 q (record { msg_id = msg_id; sub_name = sub_name }) ∷ rest)
  unfolding trace process_record Catalog.remove_queue
  trace_lem xs ys q msg_id sub_name e = (
    trace codec (delete (logged codec [] (trace codec [] xs)) q) ys,
    trace-append codec [] xs (call_delete q ∷ call_ack q msg_id sub_name ∷ ys)
        ∙ ap (λ rs. trace codec [] xs ++ rs) (rw (e, trace) refl),
  )

  -- Calls with the deletion of a queue in their midst, and then an ack of a message of it.
  abbrev pub with_late_ack : List Call → GoString → GoString → GoString → List Call → List Call
  with_late_ack xs q msg_id sub_name ys = xs ++ call_delete q ∷ call_ack q msg_id sub_name ∷ ys

  late_ack-stuck :
      (xs ys : List Call) (q msg_id sub_name : GoString) (s : Replay)
      → Catalog.queue_exists (logged codec [] (trace codec [] xs)) q ≡ true
      → codec.IsText msg_id
      → codec.IsText sub_name
      → ¬ (
          replay_records codec new_replay
            (numbered_from 1 (trace codec [] (with_late_ack xs q msg_id sub_name ys)))
          ≡ ok s)
  late_ack-stuck xs ys q msg_id sub_name s e t u h =
      let (rest, same) = trace_lem xs ys q msg_id sub_name e in
      let rs = trace codec [] xs in
      let a : Ack = record { msg_id = msg_id; sub_name = sub_name } in
      let split = numbered_from-append 1 rs (deletion 0 q ∷ ack_of 0 q a ∷ rest) in
      stuck_at_ack (numbered_from 1 rs) new_replay s q a (1 + length rs) (1 + length rs + 1)
        (numbered_from (1 + length rs + 1 + 1) rest) (codec.decode-encode_ack a t u)
        (ap (replay_records codec new_replay) (sym (ap (numbered_from 1) same ∙ split)) ∙ h)

  -- A process starts on an empty directory, in a mode with files, and makes calls whose appends
  -- succeed: some, then `DeleteQueue` of a queue that exists, an `Ack` for it, and some more. Both are
  -- accepted. If it then dies in the middle of a write, the next start on the directory succeeds, but its
  -- replay never ends without error. The records of the calls fit a segment, the reader's limit and
  -- their fields, no checkpoint is made, the numbers stay below 2 ^ 64, and the names of the ack are
  -- text.
  pub ack_after_delete_breaks_replay :
      (decode_end_checkpoint : List ℕ → Option EndCheckpoint) (threshold max_seg_size : ℕ)
      (mode : Mode) (xs ys : List Call) (q msg_id sub_name : GoString) (cut : Record) (written : ℕ)
      → mode ≢ mode_off
      → Catalog.queue_exists (logged codec [] (trace codec [] xs)) q ≡ true
      → codec.IsText msg_id
      → codec.IsText sub_name
      → SessionFits max_seg_size
          (session_of codec (with_late_ack xs q msg_id sub_name ys) cut written)
      → 1 + length (trace codec [] (with_late_ack xs q msg_id sub_name ys)) < 2 ^ 64
      → (first : Log) × (open_with_options [] threshold max_seg_size mode ≡ some first)
        × ((delete_queue codec fine (calls codec (new_coordinator first) xs) q).0 ≡ ok tt)
        × ((ack codec fine
              (calls codec (new_coordinator first) (xs ++ call_delete q ∷ []))
              q
              msg_id
              sub_name).0
            ≡ ok tt)
        × (second : Log) × (open_with_options
              (torn_files
                (calls codec (new_coordinator first) (with_late_ack xs q msg_id sub_name ys)).log
                cut
                written)
              threshold
              max_seg_size
              mode
            ≡ some second)
        × (result : ReplayResult) × (replay_log codec decode_end_checkpoint
              (enough codec (with_late_ack xs q msg_id sub_name ys))
              (new_coordinator second)
            ≡ some result)
        × ((s : Replay) (log : Log) → ¬ (result ≡ replayed s log))
  ack_after_delete_breaks_replay decode_end_checkpoint threshold max_seg_size mode xs ys q msg_id
        sub_name cut written ne e t u fits bound =
      let all = with_late_ack xs q msg_id sub_name ys in
      let r =
        restarted_lem codec decode_end_checkpoint threshold max_seg_size mode all cut written ne
          fits bound in
      (
        on r.first_writer r.first_reader,
        r.started,
        delete_queue-ok codec r.first_writer r.first_reader xs q e,
        ack-ok codec r.first_writer r.first_reader (xs ++ call_delete q ∷ []) q msg_id sub_name,
        r.second,
        r.restarted,
        outcome codec decode_end_checkpoint r.behind
            (replay_records codec new_replay (numbered_from 1 (trace codec [] all))),
        r.replay,
        λ s log.
            never r.behind (replay_records codec new_replay (numbered_from 1 (trace codec [] all)))
              s log (λ x. late_ack-stuck xs ys q msg_id sub_name x e t u),
      )
    where
      never :
          (behind : Log) (o : Result Replay) (s : Replay) (log : Log)
          → ((x : Replay) → ¬ (o ≡ ok x))
          → ¬ (outcome codec decode_end_checkpoint behind o ≡ replayed s log)
      never behind (ok x) s log refuted h = refuted x refl
      never behind (err x) s log refuted h = cc
