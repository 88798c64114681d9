-- ===== src/DistMq/Snapshot/RoundTrip.antt =====
-- dist-mq/storage/in-memory-storage.go: a node that restores a snapshot owes what the node owed that
-- took it.
use simon_mq.Base.{Option, none, ℕ, some, GoString}
use simon_mq.Dict.{Dict, get}
use simon_mq.DistMq.Storage.{QueueState, Storage}
use simon_mq.DistMq.Snapshot.Builds.{map_option}

-- The payload and the sequence number of a message, as far as there is one.
unfoldable pub content_in : Option QueueState → GoString → Option (GoString × ℕ)
content_in none id = none
content_in (some q) id = map_option (λ msg. (msg.payload, msg.seq)) (get q.messages id)

-- What is stored under a name and an identifier.
unfoldable pub content : Storage → GoString → GoString → Option (GoString × ℕ)
unfolding content_in
content s name id = content_in (get s.queues name) id
