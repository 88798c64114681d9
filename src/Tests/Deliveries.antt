-- ===== src/Tests/Deliveries.antt =====
-- The delivery of dist-mq: a message for alice and bob.
use simon_mq.Base.{
  ℕ, zero, suc, ◌≡◌, ◌↔◌, refl, ap, Bool, true, false, ◌||◌, arith, none, some, List, [], ◌∷◌,
  GoString, codes, str_eq, map, replicate, if◌then◌else◌,
}
use simon_mq.Dict
use simon_mq.Dict.{Dict, has}
use simon_mq.Dict.Entries.{get-AllEntries}
use simon_mq.Model.{pos, SubPolicy, reached}
use simon_mq.Ring.{Ring, new_ring}
use simon_mq.Ring.Valid.{SlotsHold, Holds}
use simon_mq.Ring.Fifo.{put, get, run_fifo}
use simon_mq.DistMq.Storage.{MessageInfo}
use simon_mq.DistMq.Storage.Owed.{owed}
use simon_mq.DistMq.Delivery.Queue.{Queue, QueueMsg, is_done}
use simon_mq.DistMq.Delivery.Queue.Fifo.{run, cleared_ring_refines_fifo}
use simon_mq.DistMq.Delivery.Worker
use simon_mq.DistMq.Delivery.Worker.{Report, process}
use simon_mq.Pending.{is_finished, retries_after}
use simon_mq.DistMq.Delivery.Worker.Reports.{
  IsValid, IsSettled, process-subscribers, process_refused,
}
use simon_mq.DistMq.Delivery.Worker.Liveness.{Within, accepting, Drained, run-drains}
use simon_mq.DistMq.Delivery.Manager.{Manager, new_manager, sweep, promote_with_retry}
use simon_mq.DistMq.Delivery.Manager.Held.{scheduled, popped, processed, steps}
use simon_mq.DistMq.Delivery.Manager.Once.{HoldsOnce, Kept}
use simon_mq.DistMq.Delivery.Manager.Steps.{steps-HoldsOnce}
use simon_mq.DistMq.Delivery.Manager.Terms.{
  nothing-HoldsOnce, sweep-HoldsOnce, failing, succeeding, retry-HoldsOnce,
}
use simon_mq.Tests.Fixtures.{orders, alice, two_subs, two_subs-IsMap}
use simon_mq.Tests.Storages.{with_queue, with_message, with_message-IsValid}

cleared_ring_refines_fifo_example :
    run {A = ℕ} new_ring (put 1 ∷ put 2 ∷ get ∷ get ∷ get ∷ []) ≡ some (some 1 ∷ some 2 ∷ none ∷ [])
unfolding run_fifo
cleared_ring_refines_fifo_example = cleared_ring_refines_fifo (put 1 ∷ put 2 ∷ get ∷ get ∷ get ∷ [])

abbrev message : QueueMsg
message = record {
  msg_id = codes "m1";
  payload = codes "one";
  sub_list = two_subs;
  acked_subs = [];
  retry_map = [];
}

message-IsValid : IsValid message
unfolding has Dict.get
message-IsValid = record {
  listed = record { is_map = two_subs-IsMap; named = (refl, (refl, tt)) };
  acks = tt;
  within = λ k h. absurd cc;
}

-- Three attempts settle it: each policy has three retries.
message-Within : Within 3 message
unfolding Dict.get
message-Within k p e f =
    ap (λ l. reached 3 l)
      (get-AllEntries (λ j q. q.number_of_retries ≡ pos 3) two_subs k p (refl, (refl, tt)) e)

one_message : Ring QueueMsg
one_message = record { count = 1; head = 0; buf = some message ∷ replicate 9 none; has_work = true }

one_message-SlotsHold : SlotsHold (some message ∷ replicate 9 none) 0 0 (message ∷ [])
one_message-SlotsHold zero x e = ap some e
one_message-SlotsHold (suc i) x e = absurd cc

one_message-Holds : Holds one_message (message ∷ [])
unfolding one_message
one_message-Holds = record {
  live = record {
    head_in = omega arith;
    roomy = omega arith;
    within = omega arith;
    counted = refl;
    slots = one_message-SlotsHold;
  };
  slack = omega arith;
  tight = omega arith;
}

abbrev queue : Queue
queue = record { name = orders; ring = one_message }

abbrev refusing : SubPolicy → Bool
refusing p = false

abbrev alice_takes : SubPolicy → Bool
alice_takes p = str_eq p.sub_name alice

run-drains_example :
    (reports : List Report) × (q : Queue) × (Worker.run
        (map accepting (refusing ∷ refusing ∷ refusing ∷ []))
        queue
      ≡ some (reports, q))
    × Drained 1 reports q
run-drains_example =
    run-drains (refusing ∷ refusing ∷ refusing ∷ []) queue (3 ∷ []) (message ∷ [])
      (omega arith, message-IsValid, message-Within, tt) one_message-Holds (omega arith)

process-subscribers_example :
    (r : Report) × (process alice_takes false true queue message ≡ some r)
    × ((k : GoString)
        → has r.msg.acked_subs k ≡ (
            has message.acked_subs k
            || is_finished alice_takes (Dict.get two_subs k) (Dict.get message.retry_map k)))
    × ((k : GoString)
        → Dict.get r.msg.retry_map k ≡ (
            if has message.acked_subs k
            then Dict.get message.retry_map k
            else retries_after alice_takes (Dict.get two_subs k) (Dict.get message.retry_map k)))
    × (r.done ≡ true ↔ IsSettled r.msg)
    × Holds r.queue.ring (if r.done then message ∷ [] else message ∷ r.msg ∷ [])
process-subscribers_example =
    process-subscribers queue (message ∷ []) one_message-Holds alice_takes message message-IsValid

process_refused_example :
    (r : Report) × (process alice_takes false false queue message ≡ some r)
    × (r.msg.acked_subs ≡ [])
    × (r.done ≡ false)
    × Holds r.queue.ring (message ∷ r.msg ∷ [])
unfolding is_done
process_refused_example =
    process_refused queue (message ∷ []) one_message-Holds alice_takes message message-IsValid refl

abbrev info : MessageInfo
info = record { msg_id = codes "m1"; payload = codes "one"; sub_list = two_subs; acked_subs = [] }

abbrev running : Manager
running = record { running = true; queues = []; in_flight = [] }

steps-HoldsOnce_example : Kept (
    steps
      (record { manager = running; hands = [] })
      (scheduled orders info
        ∷ popped orders
        ∷ scheduled orders info
        ∷ processed orders alice_takes true
        ∷ []))
steps-HoldsOnce_example =
    steps-HoldsOnce (record { manager = running; hands = [] })
      (scheduled orders info
        ∷ popped orders
        ∷ scheduled orders info
        ∷ processed orders alice_takes true
        ∷ [])
      (nothing-HoldsOnce true)

sweep-HoldsOnce_example :
    (m : Manager) × (sweep with_message running ≡ some m)
    × HoldsOnce (record { manager = m; hands = [] })
    × ((name id sub : GoString) (p : SubPolicy)
        → owed with_message name id sub ≡ some p
        → has m.in_flight id ≡ true)
sweep-HoldsOnce_example =
    sweep-HoldsOnce [] with_message running with_message-IsValid refl (nothing-HoldsOnce true)

retry-HoldsOnce_example :
    (m : Manager) × (promote_with_retry 4
        (failing with_queue ∷ failing with_queue ∷ succeeding with_message ∷ [])
        new_manager
      ≡ some m)
    × (m.running ≡ true)
    × HoldsOnce (record { manager = m; hands = [] })
    × ((name id sub : GoString) (p : SubPolicy)
        → owed with_message name id sub ≡ some p
        → has m.in_flight id ≡ true)
retry-HoldsOnce_example =
    retry-HoldsOnce (with_queue ∷ with_queue ∷ []) with_message [] new_manager (omega arith)
      with_message-IsValid (λ e. (refl, refl))
