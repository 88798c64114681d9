-- ===== src/DistMq/Fsm/Replay.antt =====
-- What a node holds after any log.
use simon_mq.Base.{
  some, ℕ, ◌+◌, ◌^◌, ◌≤◌, ◌<◌, ◌≡◌, refl, Bool, true, false, List, [], ◌∷◌, arith, length, GoString,
  if◌then◌else◌, ◌==◌,
}
use simon_mq.Dict.{Dict}
use simon_mq.Dict.Keys.{IsMap}
use simon_mq.Model.{SubPolicy}
use simon_mq.DistMq.Storage
use simon_mq.DistMq.Storage.{MessageState, Storage, new_storage, next}
use simon_mq.DistMq.Storage.Valid.{
  IsValid, new_storage-IsValid, create_queue-IsValid, delete_queue-IsValid, put_sub_policy-IsValid,
  delete_sub_policy-IsValid,
}
use simon_mq.DistMq.Storage.Owed.{owed}
use simon_mq.DistMq.Storage.Delivery.{message_at}
use simon_mq.DistMq.Storage.Stored.{stored_lem}
use simon_mq.DistMq.Storage.Preserved.{enqueue-IsValid, ack-IsValid}
use simon_mq.DistMq.Command
use simon_mq.DistMq.Command.{Command, Json, decode, validate}
use simon_mq.DistMq.Command.RoundTrip.{decode-IsMap}
use simon_mq.DistMq.Fsm.{Response, error_of, message_of, dispatch, apply_decoded, apply, apply_all}

-- Valid, and at most `n` sequence numbers used.
pub record Within (n : ℕ) (s : Storage) : Type 0 where
  pub valid : IsValid s
  pub used : s.next_seq ≤ n

-- The storage behind a response is the one behind the result.
error_of-state : (r : Storage.Result (Unit {0}) × Storage) → (error_of r).1 ≡ r.1
error_of-state (Storage.ok _, s) = refl
error_of-state (Storage.err e, s) = refl

message_of-state : (r : Storage.Result Storage.MessageInfo × Storage) → (message_of r).1 ≡ r.1
message_of-state (Storage.ok m, s) = refl
message_of-state (Storage.err e, s) = refl

module _ (s : Storage) (k : GoString) where
  seq-create_queue : (Storage.create_queue s k).1.next_seq ≡ s.next_seq
  unfolding Storage.create_queue
  seq-create_queue = ground arith

  seq-delete_queue : (Storage.delete_queue s k).1.next_seq ≡ s.next_seq
  unfolding Storage.delete_queue
  seq-delete_queue = ground arith

  seq-put_sub_policy : (p : SubPolicy) → (Storage.put_sub_policy s k p).1.next_seq ≡ s.next_seq
  unfolding Storage.put_sub_policy
  seq-put_sub_policy p = ground arith

  seq-delete_sub_policy : (x : GoString) → (Storage.delete_sub_policy s k x).1.next_seq ≡ s.next_seq
  unfolding Storage.delete_sub_policy
  seq-delete_sub_policy x = ground arith

  seq-ack :
      (id : GoString) (names : List GoString) → (Storage.ack s k id names).1.next_seq ≡ s.next_seq
  unfolding Storage.ack
  seq-ack id names = ground arith

  seq-enqueue :
      (id payload : GoString) (subs : Dict SubPolicy)
      → s.next_seq + 1 < 2 ^ 64
      → (Storage.enqueue s k id payload subs).1.next_seq ≤ s.next_seq + 1
  unfolding Storage.enqueue
  seq-enqueue id payload subs room = ground arith

-- Either branch of a test keeps a property of the storage.
if_state :
    (P : Storage → Type 0) (b : Bool) (x y : Response × Storage)
    → P x.1
    → P y.1
    → P (if b then x else y).1
if_state P true x y p q = p
if_state P false x y p q = q

Within-more : {n m : ℕ} {s : Storage} → n ≤ m → Within n s → Within m s
Within-more le w = record { valid = w.valid; used = omega (arith, w.used) }

module _ (n : ℕ) (s : Storage) (c : Command) (is_map : IsMap c.sub_list) (room : n + 1 < 2 ^ 64)
    (w : Within n s) where
  abbrev Next : Storage → Type 0
  Next = Within (n + 1)

  dispatch-Within : Next (dispatch s c).1
  unfolding dispatch
  dispatch-Within =
      if_state Next (c.type == Command.create_queue) _ _
        (rw error_of-state (record {
          valid = create_queue-IsValid s c.queue_name w.valid;
          used = omega (arith, w.used, seq-create_queue s c.queue_name);
        }))
        (if_state Next (c.type == Command.delete_queue) _ _
          (rw error_of-state (record {
            valid = delete_queue-IsValid s c.queue_name w.valid;
            used = omega (arith, w.used, seq-delete_queue s c.queue_name);
          }))
          (if_state Next (c.type == Command.put_sub_policy) _ _
            (rw error_of-state (record {
              valid = put_sub_policy-IsValid s c.queue_name c.policy w.valid;
              used = omega (arith, w.used, seq-put_sub_policy s c.queue_name c.policy);
            }))
            (if_state Next (c.type == Command.delete_sub_policy) _ _
              (rw error_of-state (record {
                valid = delete_sub_policy-IsValid s c.queue_name c.sub_name w.valid;
                used = omega (arith, w.used, seq-delete_sub_policy s c.queue_name c.sub_name);
              }))
              (if_state Next (c.type == Command.ack) _ _
                (rw error_of-state (record {
                  valid = ack-IsValid s c.queue_name c.msg_id _ w.valid;
                  used = omega (arith, w.used, seq-ack s c.queue_name c.msg_id);
                }))
                (if_state Next (c.type == Command.enqueue) _ _
                  (rw message_of-state (record {
                    valid =
                        enqueue-IsValid s c.queue_name c.msg_id c.payload c.sub_list is_map
                          (omega (arith, w.used)) w.valid;
                    used =
                        omega
                          (arith, w.used, seq-enqueue s c.queue_name c.msg_id c.payload c.sub_list);
                  }))
                  (Within-more (omega arith) w))))))

module _ (json : Json) where
  decoded-Within :
      (n : ℕ) (s : Storage) (r : Command.Result Command)
      → n + 1 < 2 ^ 64
      → Within n s
      → ((c : Command) → r ≡ Command.ok c → IsMap c.sub_list)
      → Within (n + 1) (apply_decoded s r).1
  decoded-Within n s (Command.err e) room w m = Within-more (omega arith) w
  decoded-Within n s (Command.ok c) room w m = dispatch-Within n s c (m c refl) room w

  apply-Within :
      (n : ℕ) (s : Storage) (entry : List ℕ)
      → n + 1 < 2 ^ 64
      → Within n s
      → Within (n + 1) (apply json s entry).1
  unfolding apply
  apply-Within n s entry room w =
      decoded-Within n s (decode json entry) room w (decode-IsMap json entry)

  apply_all-Within :
      (n : ℕ) (s : Storage) (entries : List (List ℕ))
      → n + length entries < 2 ^ 64
      → Within n s
      → Within (n + length entries) (apply_all json s entries)
  unfolding apply_all
  apply_all-Within n s [] room w = Within-more (omega arith) w
  apply_all-Within n s (entry ∷ entries) room w = Within-more (omega arith) (
      apply_all-Within (n + 1) (apply json s entry).1 entries (omega arith)
        (apply-Within n s entry (omega arith) w))

  -- Whatever the entries of the log, malformed ones included, as long as there are fewer than 2 ^ 64
  -- of them, a node that applies them from the empty state holds a valid storage: names agree with
  -- keys, acks lie inside the snapshot of subscribers, and each message stored is owed to somebody.
  pub apply_all-IsValid :
      (entries : List (List ℕ))
      → length entries < 2 ^ 64
      → IsValid (apply_all json new_storage entries)
  apply_all-IsValid entries short =
      (apply_all-Within 0 new_storage entries (omega arith)
        (record { valid = new_storage-IsValid; used = omega arith })).valid

  -- Whatever the entries of the log, malformed ones included, as long as there are fewer than 2 ^ 64
  -- of them, a node that applies them from the empty state holds a message exactly if some subscriber
  -- is owed it: a message without subscribers is never kept, nor one that everybody has acked.
  pub stored_iff_owed :
      (entries : List (List ℕ)) (k id : GoString)
      → length entries < 2 ^ 64
      → ((msg : MessageState)
          → message_at (apply_all json new_storage entries) k id ≡ some msg
          → (sub : GoString) × (p : SubPolicy) × (owed (apply_all json new_storage entries) k id sub
              ≡ some p))
        × ((sub : GoString) (p : SubPolicy)
            → owed (apply_all json new_storage entries) k id sub ≡ some p
            → (msg : MessageState) × (message_at (apply_all json new_storage entries) k id
                ≡ some msg))
  stored_iff_owed entries k id short =
      stored_lem (apply_all json new_storage entries) k id (apply_all-IsValid entries short)
