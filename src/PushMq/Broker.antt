-- ===== src/PushMq/Broker.antt =====
-- push-mq/broker.go: the queues by name, at most 128 of them. The broker's mutex is held throughout
-- each operation. The worker that a new queue starts is in `PushMq.Worker`.
use simon_mq.Base.{ℕ, ◌+◌, ◌-◌, Option, none, some, [], GoString, leb, if◌then◌else◌, ◌>>=◌}
use simon_mq.Dict.{Dict, get, has, put, delete}
use simon_mq.Model.{SubPolicy}
use simon_mq.PushMq.Queue
use simon_mq.PushMq.Queue.{Queue, new_queue, new_queue_msg}

pub record Broker : Type 0 where
  pub queues : Dict Queue
  pub num_queues : ℕ

abbrev pub new_broker : Broker
new_broker = record { queues = []; num_queues = 0 }

-- What an operation returns.
pub data Reply : Type 0 where
  done already_exists too_many_queues does_not_exist invalid_metadata : Reply

unfoldable pub create_queue : Broker → GoString → Reply × Broker
create_queue b name =
    if has b.queues name
    then (already_exists, b)
    else if leb 128 b.num_queues
    then (too_many_queues, b)
    else (
      done,
      record { queues = put b.queues name (new_queue name); num_queues = b.num_queues + 1 },
    )

-- The queue is closed, which only its worker sees, and it leaves the map. The count is positive
-- there (`PushMq.Valid`).
unfoldable pub delete_queue : Broker → GoString → Broker
delete_queue b name =
    if has b.queues name
    then record { queues = delete b.queues name; num_queues = b.num_queues - 1 }
    else b

abbrev pub enqueue_in :
    Option Queue → Broker → GoString → GoString → GoString → Option (Reply × Broker)
enqueue_in none b uuid name payload = some (does_not_exist, b)
enqueue_in (some q) b uuid name payload = (do
  q' ← Queue.add q (new_queue_msg uuid name payload)
  some (done, record b { queues = put b.queues name q' }))

unfoldable pub enqueue : Broker → GoString → GoString → GoString → Option (Reply × Broker)
enqueue b uuid name payload = enqueue_in (get b.queues name) b uuid name payload

abbrev pub changed : Option Queue → Broker → GoString → Reply × Broker
changed none b name = (invalid_metadata, b)
changed (some q) b name = (done, record b { queues = put b.queues name q })

abbrev pub add_in : Option Queue → Broker → SubPolicy → GoString → Reply × Broker
add_in none b metadata queue_name = (does_not_exist, b)
add_in (some q) b metadata queue_name = changed (Queue.add_subscriber q metadata) b queue_name

unfoldable pub add_subscriber : Broker → SubPolicy → GoString → Reply × Broker
add_subscriber b metadata queue_name = add_in (get b.queues queue_name) b metadata queue_name

abbrev pub update_in : Option Queue → Broker → SubPolicy → GoString → Reply × Broker
update_in none b metadata queue_name = (does_not_exist, b)
update_in (some q) b metadata queue_name = changed (Queue.update_subscriber q metadata) b queue_name

unfoldable pub update_subscriber : Broker → SubPolicy → GoString → Reply × Broker
update_subscriber b metadata queue_name = update_in (get b.queues queue_name) b metadata queue_name

abbrev pub remove_in : Option Queue → Broker → GoString → GoString → Reply × Broker
remove_in none b sub_name queue_name = (does_not_exist, b)
remove_in (some q) b sub_name queue_name =
    (done, record b { queues = put b.queues queue_name (Queue.remove_subscriber q sub_name) })

unfoldable pub remove_subscriber : Broker → GoString → GoString → Reply × Broker
remove_subscriber b sub_name queue_name = remove_in (get b.queues queue_name) b sub_name queue_name
