-- ===== src/Durable/Coordinator/Unsynced.antt =====
-- durable-mq/coordinator: a change whose sync fails.
use simon_mq.Base.{◌+◌, ◌≡◌, refl, inl, inr, true, Option, [], GoString, length, ltb, Bool-cases}
use simon_mq.Durable.Model.{Codec}
use simon_mq.Durable.Record
use simon_mq.Durable.Record.{Record, encode}
use simon_mq.Durable.Wal.Writer
use simon_mq.Durable.Wal.Writer.{
  Writer, is_durable, sync_fails, numbered, Appended, roll_segment, write_record,
}
use simon_mq.Durable.Wal.Reader.{Reader}
use simon_mq.Durable.Wal.Log
use simon_mq.Durable.Wal.Log.{Log, on, written}
use simon_mq.Durable.Wal.Log.Kept.{InFiles, written_there}
use simon_mq.Durable.Catalog.{Catalog}
use simon_mq.Durable.Coordinator.{
  err, append_failed, new_record, create_queue, log_and_process, processed,
}

-- What an append whose sync fails leaves in the writer.
record Unsynced (w : Writer) (r : Record) (o : Appended × Writer) : Type 0 where
  reply : o.0 ≡ Writer.failed
  next : o.1.next_lsn ≡ w.next_lsn
  there : InFiles o.1.sm.files (numbered w.next_lsn r)

append-Unsynced :
    (w : Writer) (r : Record)
    → is_durable w.mode ≡ true
    → Unsynced w r (Writer.append sync_fails w r)
unfolding Writer.append
append-Unsynced w r e =
    elim (Bool-cases
      (ltb w.max_seg_size (w.current_size + length (encode (numbered w.next_lsn r))))) [
        | inl f ↦
            rw f (left (roll_segment w) (unfold roll_segment in e) (unfold roll_segment in refl))
        | inr f ↦ rw f (left w e refl)
      ]
  where
    left :
        (w' : Writer)
        → is_durable w'.mode ≡ true
        → w'.next_lsn ≡ w.next_lsn
        → Unsynced w r (write_record sync_fails w' (encode (numbered w.next_lsn r)))
    left w' d n =
        rw d (record { reply = refl; next = n; there = written_there w' (numbered w.next_lsn r) })

refused_lem :
    (codec : Codec) (w : Writer) (rd : Option Reader) (cat : Catalog) (r : Record)
    (o : Appended × Writer)
    → Unsynced w r o
    → let p = processed codec sync_fails (record { log = on w rd; cat = cat }) r (written rd o) in
      (p.0 ≡ err append_failed)
      × (w' : Writer) × (p.1 ≡ record { log = on w' rd; cat = cat })
      × (w'.next_lsn ≡ w.next_lsn)
      × InFiles w'.sm.files (numbered w.next_lsn r)
refused_lem codec w rd cat r (Writer.ok n, w') u = absurd (cc (u.reply))
refused_lem codec w rd cat r (Writer.failed, w') u = (refl, w', refl, u.next, u.there)

-- Where each append is synced and the sync of `CreateQueue` fails, the call is refused and the catalog
-- stays as it is, but the whole record of the creation stands in a segment, and the next record gets the
-- same number.
pub failed_sync_leaves_record :
    (codec : Codec) (w : Writer) (rd : Option Reader) (cat : Catalog) (q : GoString)
    → is_durable w.mode ≡ true
    → let o = create_queue codec sync_fails (record { log = on w rd; cat = cat }) q in
      (o.0 ≡ err append_failed)
      × (w' : Writer) × (o.1 ≡ record { log = on w' rd; cat = cat })
      × (w'.next_lsn ≡ w.next_lsn)
      × InFiles w'.sm.files (numbered w.next_lsn (new_record Record.op_create_queue q []))
unfolding create_queue log_and_process Log.append
failed_sync_leaves_record codec w rd cat q e =
    refused_lem codec w rd cat (new_record Record.op_create_queue q [])
      (Writer.append sync_fails w (new_record Record.op_create_queue q []))
      (append-Unsynced w (new_record Record.op_create_queue q []) e)
