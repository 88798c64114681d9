-- ===== src/DistMq/Delivery/Manager.antt =====
-- dist-mq/delivery/manager.go: the queues of the leader and the set of the messages that are
-- scheduled. Each method holds the lock of the manager, so the calls happen one at a time. An
-- absent result is a panic of a ring.
pub mod Sweeps
pub mod Due
pub mod Held
pub mod Once
pub mod Steps
pub mod Terms
use simon_mq.Base.{
  ℕ, zero, suc, ◌==◌, Bool, true, false, not, Option, none, some, List, [], ◌∷◌, GoString, length,
  if◌then◌else◌, ◌>>=◌,
}
use simon_mq.Dict.{Dict, Set, get, has, put, delete}
use simon_mq.Model.{SubPolicy}
use simon_mq.Pending.{pending_into}
use simon_mq.DistMq.Storage.{Storage, MessageInfo, Result, ok, err, queue_names, pending_messages}
use simon_mq.DistMq.Delivery.Queue
use simon_mq.DistMq.Delivery.Queue.{Queue, new_queue, new_queue_msg, set_of}

-- `running` is whether there is a stop channel.
pub record Manager : Type 0 where
  pub running : Bool
  pub queues : Dict Queue
  pub in_flight : Set

abbrev pub new_manager : Manager
new_manager = record { running = false; queues = []; in_flight = [] }

-- dist-mq/model/queue-info.go: `PendingSubs` of the stored message.
unfoldable pub info_pending : MessageInfo → Dict SubPolicy
info_pending info = pending_into [] info.sub_list (set_of [] info.acked_subs)

abbrev pub or_new : Option Queue → GoString → Queue
or_new none name = new_queue name
or_new (some q) name = q

-- The queue of that name, or a new one, for which a worker starts.
unfoldable pub queue_for : Manager → GoString → Queue
queue_for m name = or_new (get m.queues name) name

-- The queue is written where it stands, or where `queueFor` has put the new one.
unfoldable pub schedule : Manager → GoString → MessageInfo → Option Manager
schedule m name info =
    if not m.running
    then some m
    else if has m.in_flight info.msg_id
    then some m
    else if length (info_pending info) == 0
    then some m
    else (do
      q ← Queue.add (queue_for m name) (new_queue_msg info)
      some (record m { queues = put m.queues name q; in_flight = put m.in_flight info.msg_id tt }))

unfoldable pub schedule_all : Manager → GoString → List MessageInfo → Option Manager
schedule_all m name [] = some m
schedule_all m name (info ∷ infos) = do m' ← schedule m name info; schedule_all m' name infos

-- The messages that the sweep reads from a queue, none where the queue is gone.
abbrev pub or_nil : Result (List MessageInfo) → List MessageInfo
or_nil (ok infos) = infos
or_nil (err e) = []

unfoldable pub sweep_queues : Storage → Manager → List GoString → Option Manager
sweep_queues s m [] = some m
sweep_queues s m (name ∷ names) = do
  m' ← schedule_all m name (or_nil (pending_messages s name))
  sweep_queues s m' names

unfoldable pub sweep : Storage → Manager → Option Manager
sweep s m = sweep_queues s m (queue_names s)

unfoldable pub forget : Manager → GoString → Manager
forget m msg_id = record m { in_flight = delete m.in_flight msg_id }

unfoldable pub demote : Manager → Manager
demote m = if not m.running then m else record { running = false; queues = []; in_flight = [] }

-- The outcome of the barrier is an argument. The result tells whether there was no error.
unfoldable pub promote : Storage → Bool → Manager → Option (Bool × Manager)
promote s barrier_ok m =
    if not barrier_ok
    then some (false, demote m)
    else (do m' ← sweep s (record (demote m) { running = true }); some (true, m'))

-- One attempt: whether the node still leads, the outcome of the barrier, and the storage behind it.
pub record Attempt : Type 0 where
  pub is_leader : Bool
  pub barrier_ok : Bool
  pub store : Storage

abbrev pub promote_attempts : ℕ
promote_attempts = 4

-- At most `n` attempts.
unfoldable pub promote_with_retry : ℕ → List Attempt → Manager → Option Manager
promote_with_retry zero attempts m = some m
promote_with_retry (suc n) [] m = some m
promote_with_retry (suc n) (a ∷ attempts) m = if not a.is_leader then some m else (do
  (promoted, m') ← promote a.store a.barrier_ok m
  if promoted then some m' else promote_with_retry n attempts m')
