-- ===== src/Durable/Coordinator/Runs.antt =====
-- durable-mq/coordinator/coordinator.go: calls whose appends succeed, the records that they log, and
-- the catalog that they leave.
use simon_mq.Base.{
  ℕ, ◌+◌, ◌≡◌, refl, ◌∙◌, sym, ap, inl, inr, Bool, true, false, Option, none, some, List, [], ◌∷◌,
  ◌++◌, GoString, length, ltb, if◌then◌else◌, Bool-cases,
}
use simon_mq.Dict.{Dict}
use simon_mq.Model.{SubPolicy}
use simon_mq.Durable.Model.{Codec}
use simon_mq.Durable.Record
use simon_mq.Durable.Record.{Record, encode}
use simon_mq.Durable.Wal.Writer
use simon_mq.Durable.Wal.Writer.{Writer, Io, Appended, fine, numbered, append_all, roll_segment}
use simon_mq.Durable.Wal.Reader.{Reader}
use simon_mq.Durable.Wal.Log
use simon_mq.Durable.Wal.Log.{Log, on, written}
use simon_mq.Durable.Catalog
use simon_mq.Durable.Catalog.{Catalog, process_record}
use simon_mq.Durable.Coordinator.{
  Coordinator, Result, ok, err, queue_not_found, new_record, create_queue, delete_queue,
  update_sub_policy, delete_sub_policy, enqueue, ack, log_and_process, processed, log_only, replied,
  named_only, enqueue_to, catalog_result,
}
use simon_mq.Durable.Coordinator.Logged.{logged}

-- A call of the coordinator.
pub data Call : Type 0 where
  call_create call_delete : GoString → Call
  call_update : GoString → SubPolicy → Call
  call_delete_sub : GoString → GoString → Call
  call_enqueue call_ack : GoString → GoString → GoString → Call

abbrev pub new_coordinator : Log → Coordinator
new_coordinator log = record { log = log; cat = [] }

module _ (codec : Codec) where
  unfoldable pub call : Io → Coordinator → Call → Coordinator
  call io c (call_create q) = (create_queue codec io c q).1
  call io c (call_delete q) = (delete_queue codec io c q).1
  call io c (call_update q p) = (update_sub_policy codec io c q p).1
  call io c (call_delete_sub q s) = (delete_sub_policy codec io c q s).1
  call io c (call_enqueue q m s) = (enqueue codec io c q m s).1
  call io c (call_ack q m s) = (ack codec io c q m s).1

  -- The calls in their order, of which every append succeeds.
  unfoldable pub calls : Coordinator → List Call → Coordinator
  calls c [] = c
  calls c (x ∷ xs) = calls (call fine c x) xs

  abbrev if_there : Catalog → GoString → Record → Option Record
  if_there cat q r = if Catalog.queue_exists cat q then some r else none

  abbrev enqueue_record : Option (Dict SubPolicy) → GoString → GoString → GoString → Option Record
  enqueue_record none q m s = none
  enqueue_record (some sub_list) q m s = some (
      new_record Record.op_enqueue q
        (codec.encode_enqueue (record { msg_id = m; msg_content = s; sub_list = sub_list })))

  -- The record that a call appends to the log, if it comes to that.
  abbrev pub record_of : Catalog → Call → Option Record
  record_of cat (call_create q) = some (new_record Record.op_create_queue q [])
  record_of cat (call_delete q) = if_there cat q (new_record Record.op_delete_queue q [])
  record_of cat (call_update q p) =
      if_there cat q (new_record Record.op_update_sub_policy q (codec.encode_sub_policy p))
  record_of cat (call_delete_sub q s) =
      if_there cat q (
        new_record Record.op_delete_sub_policy q
          (codec.encode_sub_policy (named_only codec fine s)))
  record_of cat (call_enqueue q m s) =
      if Catalog.queue_exists cat q
      then enqueue_record (Catalog.fetch_queue_sub_list cat q) q m s
      else none
  record_of cat (call_ack q m s) =
      some (new_record Record.op_ack q (codec.encode_ack (record { msg_id = m; sub_name = s })))

  abbrev with_record : (Catalog → List Record) → Catalog → Option Record → List Record
  with_record rest cat none = rest cat
  with_record rest cat (some r) = r ∷ rest (process_record codec cat r).1

  -- The records of the calls.
  unfoldable pub trace : Catalog → List Call → List Record
  trace cat [] = []
  trace cat (x ∷ xs) = with_record (λ cat'. trace cat' xs) cat (record_of cat x)

  accepted : (w : Writer) (r : Record) → (Writer.append fine w r).0 ≡ Writer.ok w.next_lsn
  unfolding Writer.append roll_segment
  accepted w r =
      elim (Bool-cases
        (ltb w.max_seg_size (w.current_size + length (encode (numbered w.next_lsn r))))) [
          | inl e ↦ rw e refl
          | inr e ↦ rw e refl
        ]

  -- The coordinator behind a call that appends this record.
  abbrev after : Writer → Option Reader → Catalog → Option Record → Coordinator
  after w rd cat none = record { log = on w rd; cat = cat }
  after w rd cat (some r) = record {
    log = on (Writer.append fine w r).1 rd;
    cat = (process_record codec cat r).1;
  }

  catalog_result_lem :
      (o : Catalog.Outcome) (c : Coordinator) → (catalog_result o c).1 ≡ record c { cat = o.1 }
  catalog_result_lem (none, cat) c = refl
  catalog_result_lem (some e, cat) c = refl

  processed_lem :
      (o : Appended × Writer) (n : ℕ) (log : Log) (rd : Option Reader) (cat : Catalog) (r : Record)
      → o.0 ≡ Writer.ok n
      → (processed codec fine (record { log = log; cat = cat }) r (written rd o)).1
        ≡ record { log = on o.1 rd; cat = (process_record codec cat r).1 }
  unfolding process_record
  processed_lem (Writer.ok k, w) n log rd cat r e =
      catalog_result_lem (process_record codec cat (record r { lsn = k }))
        (record { log = on w rd; cat = cat })
  processed_lem (Writer.failed, w) n log rd cat r e = absurd cc

  log_and_process_lem :
      (w : Writer) (rd : Option Reader) (cat : Catalog) (r : Record)
      → (log_and_process codec fine (record { log = on w rd; cat = cat }) r).1
        ≡ after w rd cat (some r)
  unfolding log_and_process Log.append
  log_and_process_lem w rd cat r =
      processed_lem (Writer.append fine w r) w.next_lsn (on w rd) rd cat r (accepted w r)

  replied_lem :
      {A : Type 0} (o : Appended × Writer) (n : ℕ) (log : Log) (rd : Option Reader) (cat : Catalog)
      (a : A)
      → o.0 ≡ Writer.ok n
      → (replied codec fine (record { log = log; cat = cat }) a (written rd o)).1
        ≡ record { log = on o.1 rd; cat = cat }
  replied_lem (Writer.ok k, w) n log rd cat a e = refl
  replied_lem (Writer.failed, w) n log rd cat a e = absurd cc

  log_only_lem :
      {A : Type 0} (w : Writer) (rd : Option Reader) (cat : Catalog) (r : Record) (a : A)
      → (process_record codec cat r).1 ≡ cat
      → (log_only codec fine (record { log = on w rd; cat = cat }) r a).1 ≡ after w rd cat (some r)
  unfolding log_only Log.append
  log_only_lem w rd cat r a e =
      replied_lem (Writer.append fine w r) w.next_lsn (on w rd) rd cat a (accepted w r)
      ∙ ap (λ k. record { log = on (Writer.append fine w r).1 rd; cat = k }) (sym e)

  guarded_lem :
      (b : Bool) (w : Writer) (rd : Option Reader) (cat : Catalog) (r : Record)
      (x y : Result (Unit {0}) × Coordinator)
      → x.1 ≡ after w rd cat (some r)
      → y.1 ≡ record { log = on w rd; cat = cat }
      → (if b then x else y).1 ≡ after w rd cat (if b then some r else none)
  guarded_lem true w rd cat r x y e f = e
  guarded_lem false w rd cat r x y e f = f

  enqueue_to_lem :
      (b : Bool) (o : Option (Dict SubPolicy)) (w : Writer) (rd : Option Reader) (cat : Catalog)
      (q m s : GoString)
      → let c : Coordinator = record { log = on w rd; cat = cat } in
        (if b then enqueue_to codec fine o c q m s else (err queue_not_found, c)).1
        ≡ after w rd cat (if b then enqueue_record o q m s else none)
  unfolding process_record
  enqueue_to_lem false o w rd cat q m s = refl
  enqueue_to_lem true none w rd cat q m s = refl
  enqueue_to_lem true (some subs) w rd cat q m s =
      log_only_lem w rd cat
        (new_record Record.op_enqueue q
          (codec.encode_enqueue (record { msg_id = m; msg_content = s; sub_list = subs })))
        subs refl

  call_lem :
      (w : Writer) (rd : Option Reader) (cat : Catalog) (x : Call)
      → call fine (record { log = on w rd; cat = cat }) x ≡ after w rd cat (record_of cat x)
  unfolding call create_queue delete_queue update_sub_policy delete_sub_policy enqueue ack
      process_record
  call_lem w rd cat (call_create q) =
      log_and_process_lem w rd cat (new_record Record.op_create_queue q [])
  call_lem w rd cat (call_delete q) =
      guarded_lem (Catalog.queue_exists cat q) w rd cat (new_record Record.op_delete_queue q []) _ _
        (log_and_process_lem w rd cat (new_record Record.op_delete_queue q [])) refl
  call_lem w rd cat (call_update q p) =
      guarded_lem (Catalog.queue_exists cat q) w rd cat
        (new_record Record.op_update_sub_policy q (codec.encode_sub_policy p)) _ _
        (log_and_process_lem w rd cat
          (new_record Record.op_update_sub_policy q (codec.encode_sub_policy p)))
        refl
  call_lem w rd cat (call_delete_sub q s) =
      let r =
        new_record Record.op_delete_sub_policy q
          (codec.encode_sub_policy (named_only codec fine s)) in
      guarded_lem (Catalog.queue_exists cat q) w rd cat r _ _ (log_and_process_lem w rd cat r) refl
  call_lem w rd cat (call_enqueue q m s) =
      enqueue_to_lem (Catalog.queue_exists cat q) (Catalog.fetch_queue_sub_list cat q) w rd cat q m
        s
  call_lem w rd cat (call_ack q m s) =
      log_only_lem w rd cat
        (new_record Record.op_ack q (codec.encode_ack (record { msg_id = m; sub_name = s }))) tt
        refl

  -- The calls append the records of their trace, which make the catalog that they leave.
  pub calls_lem :
      (w : Writer) (rd : Option Reader) (cat : Catalog) (xs : List Call)
      → calls (record { log = on w rd; cat = cat }) xs ≡ record {
        log = on (append_all w (trace cat xs)) rd;
        cat = logged codec cat (trace cat xs);
      }
  unfolding calls trace append_all logged
  calls_lem w rd cat [] = refl
  calls_lem w rd cat (x ∷ xs) =
      ap (λ c. calls c xs) (call_lem w rd cat x)
      ∙ rest (λ w' cat'. calls_lem w' rd cat' xs) (record_of cat x)
    where
      rest :
          ((w' : Writer) (cat' : Catalog)
            → calls (record { log = on w' rd; cat = cat' }) xs ≡ record {
              log = on (append_all w' (trace cat' xs)) rd;
              cat = logged codec cat' (trace cat' xs);
            })
          → (o : Option Record)
          → calls (after w rd cat o) xs ≡ record {
            log = on (append_all w (with_record (λ cat'. trace cat' xs) cat o)) rd;
            cat = logged codec cat (with_record (λ cat'. trace cat' xs) cat o);
          }
      rest rec none = rec w cat
      rest rec (some r) = rec (Writer.append fine w r).1 ((process_record codec cat r).1)

  pub trace-append :
      (cat : Catalog) (xs ys : List Call)
      → trace cat (xs ++ ys) ≡ trace cat xs ++ trace (logged codec cat (trace cat xs)) ys
  unfolding trace logged
  trace-append cat [] ys = refl
  trace-append cat (x ∷ xs) ys = rest (λ cat'. trace-append cat' xs ys) (record_of cat x)
    where
      rest :
          ((cat' : Catalog)
            → trace cat' (xs ++ ys) ≡ trace cat' xs ++ trace (logged codec cat' (trace cat' xs)) ys)
          → (o : Option Record)
          → with_record (λ cat'. trace cat' (xs ++ ys)) cat o
            ≡ with_record (λ cat'. trace cat' xs) cat o
              ++ trace (logged codec cat (with_record (λ cat'. trace cat' xs) cat o)) ys
      rest rec none = rec cat
      rest rec (some r) = ap (λ rs. r ∷ rs) (rec ((process_record codec cat r).1))

  processed_reply :
      (o : Appended × Writer) (n : ℕ) (log : Log) (rd : Option Reader) (cat : Catalog)
      (q : GoString)
      → o.0 ≡ Writer.ok n
      → (processed codec fine
          (record { log = log; cat = cat })
          (new_record Record.op_delete_queue q [])
          (written rd o)).0
        ≡ ok tt
  unfolding process_record
  processed_reply (Writer.ok k, w) n log rd cat q e = refl
  processed_reply (Writer.failed, w) n log rd cat q e = absurd cc

  replied_reply :
      {A : Type 0} (o : Appended × Writer) (n : ℕ) (c : Coordinator) (rd : Option Reader) (a : A)
      → o.0 ≡ Writer.ok n
      → (replied codec fine c a (written rd o)).0 ≡ ok a
  replied_reply (Writer.ok k, w) n c rd a e = refl
  replied_reply (Writer.failed, w) n c rd a e = absurd cc

  -- The deletion of a queue that exists, and any ack, are accepted.
  pub delete_queue-ok :
      (w : Writer) (rd : Option Reader) (xs : List Call) (q : GoString)
      → Catalog.queue_exists (logged codec [] (trace [] xs)) q ≡ true
      → (delete_queue codec fine (calls (new_coordinator (on w rd)) xs) q).0 ≡ ok tt
  unfolding delete_queue log_and_process Log.append
  delete_queue-ok w rd xs q e =
      let w' = append_all w (trace [] xs) in
      let cat = logged codec [] (trace [] xs) in
      rw (calls_lem w rd [] xs, e)
        (processed_reply (Writer.append fine w' (new_record Record.op_delete_queue q []))
          w'.next_lsn (on w' rd) rd cat q (accepted w' (new_record Record.op_delete_queue q [])))

  pub ack-ok :
      (w : Writer) (rd : Option Reader) (xs : List Call) (q m s : GoString)
      → (ack codec fine (calls (new_coordinator (on w rd)) xs) q m s).0 ≡ ok tt
  unfolding ack log_only Log.append
  ack-ok w rd xs q m s =
      let w' = append_all w (trace [] xs) in
      let r = new_record Record.op_ack q (codec.encode_ack (record { msg_id = m; sub_name = s })) in
      rw (calls_lem w rd [] xs) (
        replied_reply (Writer.append fine w' r) w'.next_lsn
          (record { log = on w' rd; cat = logged codec [] (trace [] xs) }) rd tt (accepted w' r))
