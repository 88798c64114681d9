-- ===== src/DistMq/Fsm.antt =====
-- dist-mq/fsm/fsm.go: a committed log entry is decoded and dispatched to the storage.
pub mod Replay
pub mod Handled
use simon_mq.Base.{ℕ, Option, none, some, List, [], ◌∷◌, ◌==◌, if◌then◌else◌}
use simon_mq.DistMq.Storage
use simon_mq.DistMq.Storage.{Storage, MessageInfo, StoreError}
use simon_mq.DistMq.Command
use simon_mq.DistMq.Command.{Command, CommandError, Json, decode}

-- What `Apply` returns: nil, a message, or an error.
pub data Response : Type 0 where
  nothing : Response
  message : MessageInfo → Response
  store_error : StoreError → Response
  decode_error : CommandError → Response
  unhandled : ℕ → Response

abbrev error_of : Storage.Result (Unit {0}) × Storage → Response × Storage
error_of (Storage.ok _, s) = (nothing, s)
error_of (Storage.err e, s) = (store_error e, s)

abbrev message_of : Storage.Result MessageInfo × Storage → Response × Storage
message_of (Storage.ok m, s) = (message m, s)
message_of (Storage.err e, s) = (store_error e, s)

abbrev names_of : Option (List (List ℕ)) → List (List ℕ)
names_of none = []
names_of (some names) = names

unfoldable pub dispatch : Storage → Command → Response × Storage
dispatch s c =
    if c.type == Command.create_queue
    then error_of (Storage.create_queue s c.queue_name)
    else if c.type == Command.delete_queue
    then error_of (Storage.delete_queue s c.queue_name)
    else if c.type == Command.put_sub_policy
    then error_of (Storage.put_sub_policy s c.queue_name c.policy)
    else if c.type == Command.delete_sub_policy
    then error_of (Storage.delete_sub_policy s c.queue_name c.sub_name)
    else if c.type == Command.ack
    then error_of (Storage.ack s c.queue_name c.msg_id (names_of c.sub_names))
    else if c.type == Command.enqueue
    then message_of (Storage.enqueue s c.queue_name c.msg_id c.payload c.sub_list)
    else (unhandled c.type, s)

abbrev apply_decoded : Storage → Command.Result Command → Response × Storage
apply_decoded s (Command.err e) = (decode_error e, s)
apply_decoded s (Command.ok c) = dispatch s c

module _ (json : Json) where
  -- A malformed entry changes nothing, on every node alike.
  unfoldable pub apply : Storage → List ℕ → Response × Storage
  apply s entry = apply_decoded s (decode json entry)

  -- The entries of the log in order, as raft hands them to a node.
  unfoldable pub apply_all : Storage → List (List ℕ) → Storage
  apply_all s [] = s
  apply_all s (entry ∷ entries) = apply_all (apply s entry).1 entries
