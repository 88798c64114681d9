-- ===== src/DistMq/Snapshot.antt =====
-- dist-mq/storage/in-memory-storage.go: `Snapshot` and `Restore`. The JSON encoding is Go's
-- encoding/json, a parameter with the law that its documentation states for these structures.
pub mod Builds
pub mod RoundTrip
use simon_mq.Base.{
  ℕ, ◌≡◌, Bool, true, false, Option, none, some, List, [], ◌∷◌, map, GoString, str_lt, sort, ltb,
}
use simon_mq.Dict.{Dict, put}
use simon_mq.Model.{SubPolicy}
use simon_mq.DistMq.Storage.{MessageState, QueueState, Storage, copy_subs, sorted_keys, values}
use simon_mq.DistMq.Delivery.Queue.{set_of}

pub record SnapshotMessage : Type 0 where
  pub seq : ℕ
  pub msg_id : GoString
  pub payload : GoString
  pub sub_list : Dict SubPolicy
  pub acked_subs : List GoString

pub record SnapshotQueue : Type 0 where
  pub name : GoString
  pub subs : Dict SubPolicy
  pub messages : List SnapshotMessage

pub record SnapshotState : Type 0 where
  pub next_seq : ℕ
  pub queues : List SnapshotQueue

unfoldable pub take_message : MessageState → SnapshotMessage
take_message msg = record {
  seq = msg.seq;
  msg_id = msg.msg_id;
  payload = msg.payload;
  sub_list = copy_subs msg.sub_list;
  acked_subs = sorted_keys msg.acked_subs;
}

abbrev by_seq : SnapshotMessage → SnapshotMessage → Bool
by_seq a b = ltb a.seq b.seq

unfoldable pub take_queue : QueueState → SnapshotQueue
take_queue q = record {
  name = q.name;
  subs = copy_subs q.subs;
  messages = sort by_seq (map take_message (values q.messages));
}

abbrev by_name : SnapshotQueue → SnapshotQueue → Bool
by_name a b = str_lt a.name b.name

unfoldable pub take_state : Storage → SnapshotState
take_state s = record {
  next_seq = s.next_seq;
  queues = sort by_name (map take_queue (values s.queues));
}

-- The loops of `Restore`: each element is written under its key.
unfoldable pub build {ℓ κ} :
    {A : Type ℓ} {B : Type κ} → (A → GoString) → (A → B) → Dict B → List A → Dict B
build key val out [] = out
build key val out (x ∷ xs) = build key val (put out (key x) (val x)) xs

unfoldable pub restore_message : SnapshotMessage → MessageState
restore_message sm = record {
  seq = sm.seq;
  msg_id = sm.msg_id;
  payload = sm.payload;
  sub_list = copy_subs sm.sub_list;
  acked_subs = set_of [] sm.acked_subs;
}

unfoldable pub restore_queue : SnapshotQueue → QueueState
restore_queue sq = record {
  name = sq.name;
  subs = copy_subs sq.subs;
  messages = build (λ m. m.msg_id) restore_message [] sq.messages;
}

unfoldable pub restore_state : SnapshotState → Storage
restore_state snap = record {
  queues = build (λ q. q.name) restore_queue [] snap.queues;
  next_seq = snap.next_seq;
}

-- `IsText` says of a snapshot that its strings are valid UTF-8, which is what the encoder keeps.
pub record Json : Type 1 where
  pub encode : SnapshotState → List ℕ
  pub decode : List ℕ → Option SnapshotState
  pub IsText : SnapshotState → Type 0
  pub decode-encode : (snap : SnapshotState) → IsText snap → decode (encode snap) ≡ some snap

abbrev restored : Storage → Option SnapshotState → Bool × Storage
restored s none = (false, s)
restored s (some snap) = (true, restore_state snap)

module _ (json : Json) where
  unfoldable pub snapshot : Storage → List ℕ
  snapshot s = json.encode (take_state s)

  -- Whether there was no error, and the storage after it.
  unfoldable pub restore : Storage → List ℕ → Bool × Storage
  restore s bytes = restored s (json.decode bytes)
