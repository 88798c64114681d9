-- ===== src/DistMq/Delivery/Worker.antt =====
-- dist-mq/delivery/worker.go: one pass over a message. What the environment decides are arguments:
-- the outcome of each request (`sent`), whether the worker is stopped when the requests are over, and
-- whether the ack callback succeeds. The results arrive in the order of the map. An absent result
-- is a panic of the ring.
pub mod Passes
pub mod Reports
pub mod Liveness
use simon_mq.Base.{
  ℕ, ◌+◌, ◌==◌, Bool, true, false, Option, none, some, List, [], ◌∷◌, ◌++◌, GoString, length,
  str_lt, sort, if◌then◌else◌, ◌>>=◌,
}
use simon_mq.Dict.{Dict, Set, get, put}
use simon_mq.Model.{SubPolicy, reached, or_zero, limit_of}
use simon_mq.DistMq.Delivery.Queue
use simon_mq.DistMq.Delivery.Queue.{Queue, QueueMsg, set_of, pending_subs, is_done}

pub record DeliveryResult : Type 0 where
  pub sub_name : GoString
  pub ok : Bool

unfoldable pub results_of : (SubPolicy → Bool) → Dict SubPolicy → List DeliveryResult
results_of sent [] = []
results_of sent ((name, sub) ∷ pending) =
    record { sub_name = sub.sub_name; ok = sent sub } ∷ results_of sent pending

-- The retry counts and the finished subscribers, with one result more.
abbrev pub note_result :
    Dict SubPolicy → Dict ℕ × List GoString → DeliveryResult → Dict ℕ × List GoString
note_result pending (retries, finished) result =
    if result.ok then (retries, finished ++ result.sub_name ∷ []) else (
      put retries result.sub_name (or_zero (get retries result.sub_name) + 1),
      (if reached (or_zero (get retries result.sub_name) + 1)
            (limit_of (get pending result.sub_name))
          then finished ++ result.sub_name ∷ []
          else finished),
    )

unfoldable pub note_results :
    Dict SubPolicy → Dict ℕ × List GoString → List DeliveryResult → Dict ℕ × List GoString
note_results pending noted [] = noted
note_results pending noted (result ∷ results) =
    note_results pending (note_result pending noted result) results

unfoldable pub noted_of : (SubPolicy → Bool) → QueueMsg → Dict ℕ × List GoString
noted_of sent msg =
    note_results (pending_subs msg) (msg.retry_map, []) (results_of sent (pending_subs msg))

-- `finished`, sorted.
unfoldable pub finished_of : (SubPolicy → Bool) → QueueMsg → List GoString
finished_of sent msg = sort str_lt (noted_of sent msg).1

-- The message with the retries of the pass counted.
unfoldable pub counted : (SubPolicy → Bool) → QueueMsg → QueueMsg
counted sent msg = record msg { retry_map = (noted_of sent msg).0 }

abbrev pub acked : QueueMsg → List GoString → QueueMsg
acked msg names = record msg { acked_subs = set_of msg.acked_subs names }

-- The queue and the message after a pass, the names handed to the ack callback if it was called, and
-- whether the message was reported as done.
pub record Report : Type 0 where
  pub queue : Queue
  pub msg : QueueMsg
  pub ack : Option (List GoString)
  pub done : Bool

abbrev pub requeued : Queue → QueueMsg → Option (List GoString) → Option Report
requeued q msg ack = do
  q' ← Queue.add q msg
  some (record { queue = q'; msg = msg; ack = ack; done = false })

abbrev pub closing : Queue → QueueMsg → Option (List GoString) → Option Report
closing q msg ack =
    if is_done msg
    then some (record { queue = q; msg = msg; ack = ack; done = true })
    else requeued q msg ack

abbrev pub report_finished : Bool → Queue → QueueMsg → List GoString → Option Report
report_finished ack_ok q msg [] = closing q msg none
report_finished ack_ok q msg (x ∷ xs) =
    if ack_ok
    then closing q (acked msg (x ∷ xs)) (some (x ∷ xs))
    else requeued q msg (some (x ∷ xs))

unfoldable pub process : (SubPolicy → Bool) → Bool → Bool → Queue → QueueMsg → Option Report
process sent stopped ack_ok q msg =
    if length (pending_subs msg) == 0
    then some (record { queue = q; msg = msg; ack = none; done = true })
    else if stopped
    then some (record { queue = q; msg = counted sent msg; ack = none; done = false })
    else report_finished ack_ok q (counted sent msg) (finished_of sent msg)

-- What the environment decides in one pass.
pub record Env : Type 0 where
  pub sent : SubPolicy → Bool
  pub stopped : Bool
  pub ack_ok : Bool

-- A pass of the loop, or none where the queue is empty and the worker waits.
unfoldable pub pass : Env → Queue → Option (Option Report × Queue)
pass env q = do
  (msg, rest) ← Queue.pop q
  elim msg [
    | none ↦ some (none, rest)
    | some m ↦ do r ← process env.sent env.stopped env.ack_ok rest m; some (some r, r.queue)
  ]

-- The loop of `Run`, until the environments are used up, the worker waits, or it is stopped.
unfoldable pub run : List Env → Queue → Option (List Report × Queue)
run [] q = some ([], q)
run (env ∷ envs) q = do
  (report, rest) ← pass env q
  elim report [
    | none ↦ some ([], rest)
    | some r ↦
        if env.stopped
        then some (r ∷ [], rest)
        else do (reports, last) ← run envs rest; some (r ∷ reports, last)
  ]
