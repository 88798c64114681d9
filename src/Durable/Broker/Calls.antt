-- ===== src/Durable/Broker/Calls.antt =====
-- durable-mq/queue/broker.go: any sequence of calls on a restored broker.
use simon_mq.Base.{◌≡◌, false, Option, none, some, List, [], ◌∷◌, GoString, ◌>>=◌}
use simon_mq.Dict.{Dict}
use simon_mq.Model.{SubPolicy}
use simon_mq.Ring.{Ring}
use simon_mq.Durable.Model.{Codec}
use simon_mq.Durable.Coordinator
use simon_mq.Durable.Wal.Writer.{Io}
use simon_mq.Durable.Wal.Log
use simon_mq.Durable.Wal.Log.{Log}
use simon_mq.Durable.Coordinator.{Coordinator}
use simon_mq.Durable.Broker.{
  Restored, restored, restore_failed, restore_crashed, BrokerError, Broker, create_queue,
  delete_queue, close, enqueue, update_subscriber, remove_subscriber,
}
use simon_mq.Durable.Broker.Valid.{IsValid}

-- A call of the broker, with the outcome of its append.
pub data Call : Type 0 where
  call_create call_delete : Io → GoString → Call
  call_enqueue : Io → GoString → GoString → GoString → Call
  call_update : Io → SubPolicy → GoString → Call
  call_remove : Io → GoString → GoString → Call
  call_close : Call

module _ (codec : Codec) where
  abbrev broker_of : Option (Option BrokerError × Broker) → Option Broker
  broker_of none = none
  broker_of (some (e, b)) = some b

  unfoldable pub call : Broker → Call → Option Broker
  call b (call_create io name) = some (create_queue codec io b name false).1
  call b (call_delete io name) = some (delete_queue codec io b name).1
  call b (call_enqueue io uuid queue_name payload) =
      broker_of (enqueue codec io uuid b queue_name payload)
  call b (call_update io metadata queue_name) =
      some (update_subscriber codec io b metadata queue_name).1
  call b (call_remove io sub_name queue_name) =
      some (remove_subscriber codec io b sub_name queue_name).1
  call b call_close = some (close codec b)

  -- The calls in their order.
  unfoldable pub calls : Broker → List Call → Option Broker
  calls b [] = some b
  calls b (x ∷ xs) = do b' ← call b x; calls b' xs

-- After the restoration, if it ends without error, the calls do not panic and keep the broker valid.
abbrev pub Runs : Codec → List Call → Restored → Type 0
Runs codec xs (restore_failed e) = Unit
Runs codec xs restore_crashed = ⊥
Runs codec xs (restored b) = (b' : Broker) × (calls codec b xs ≡ some b') × IsValid b'
