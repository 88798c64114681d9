-- ===== src/PushMq/Queue.antt =====
-- push-mq/queue.go: a ring of messages and the subscribers of the queue. The ring is the one of
-- `Ring`; its `has_work` is the wake-up channel. An absent result is a panic of the ring.
use simon_mq.Base.{
  ℕ, Bool, true, false, ◌++◌, Option, none, some, [], ◌∷◌, GoString, codes, ltb, if◌then◌else◌,
  ◌>>=◌,
}
use simon_mq.Dict.{Dict, Set, put, delete}
use simon_mq.Model.{ℤ, pos, negsuc, SubPolicy}
use simon_mq.Ring
use simon_mq.Ring.{Ring, new_ring}

pub record QueueMsg : Type 0 where
  pub msg_id : GoString
  pub payload : GoString
  pub acked_subs : Set
  pub retry_map : Dict ℕ

pub record Queue : Type 0 where
  pub name : GoString
  pub ring : Ring QueueMsg
  pub sub_policies : Dict SubPolicy
  pub is_closed : Bool

abbrev pub new_queue : GoString → Queue
new_queue name = record { name = name; ring = new_ring; sub_policies = []; is_closed = false }

-- The identifier that the uuid package makes is an argument.
abbrev pub new_queue_msg : GoString → GoString → GoString → QueueMsg
new_queue_msg uuid queue_name payload = record {
  msg_id = queue_name ++ (codes "/" ++ uuid);
  payload = payload;
  acked_subs = [];
  retry_map = [];
}

unfoldable pub add : Queue → QueueMsg → Option Queue
add q msg = do ring ← Ring.add q.ring msg; some (record q { ring = ring })

unfoldable pub pop : Queue → Option (Option QueueMsg × Queue)
pop q = do (msg, ring) ← Ring.pop q.ring; some (msg, record q { ring = ring })

abbrev pub is_empty : GoString → Bool
is_empty [] = true
is_empty (c ∷ s) = false

-- `NumberOfRetries > 100`
abbrev pub over_hundred : ℤ → Bool
over_hundred (pos n) = ltb 100 n
over_hundred (negsuc n) = false

unfoldable pub is_valid_sub_metadata : SubPolicy → Bool
is_valid_sub_metadata metadata =
    if is_empty metadata.sub_name
    then false
    else if is_empty metadata.sub_url
    then false
    else if over_hundred metadata.number_of_retries
    then false
    else true

abbrev pub default_retries : ℤ → ℤ
default_retries (pos n) = pos n
default_retries (negsuc n) = pos 3

unfoldable pub initialize_default_sub_metadata_fields : SubPolicy → SubPolicy
initialize_default_sub_metadata_fields metadata = record metadata {
  number_of_retries = default_retries metadata.number_of_retries;
}

-- `none` is the error of invalid metadata, which changes nothing.
unfoldable pub add_subscriber : Queue → SubPolicy → Option Queue
add_subscriber q metadata =
    if is_valid_sub_metadata metadata
    then some (record q {
      sub_policies =
          put q.sub_policies metadata.sub_name (initialize_default_sub_metadata_fields metadata);
    })
    else none

-- The same text as `AddSubscriber`.
unfoldable pub update_subscriber : Queue → SubPolicy → Option Queue
update_subscriber q metadata =
    if is_valid_sub_metadata metadata
    then some (record q {
      sub_policies =
          put q.sub_policies metadata.sub_name (initialize_default_sub_metadata_fields metadata);
    })
    else none

unfoldable pub remove_subscriber : Queue → GoString → Queue
remove_subscriber q sub_name = record q { sub_policies = delete q.sub_policies sub_name }
