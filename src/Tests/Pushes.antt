-- ===== src/Tests/Pushes.antt =====
-- The broker and the worker of push-mq.
use simon_mq.Base.{◌≡◌, refl, true, false, some, List, [], ◌∷◌, codes, str_eq}
use simon_mq.Dict.{get, has, put}
use simon_mq.PushMq.Queue.{QueueMsg, new_queue_msg}
use simon_mq.PushMq.Broker.{Broker, new_broker}
use simon_mq.PushMq.Valid.{IsValid}
use simon_mq.PushMq.Calls.{Call, create, drop, send, subscribe, unsubscribe, calls, calls-IsValid}
use simon_mq.PushMq.Worker.{DeliveryResult, note_result, note_results}
use simon_mq.PushMq.Rounds.{AllSettled, unqueued_is_settled}
use simon_mq.Tests.Fixtures.{orders, alice, bob, policy, two_subs}

abbrev requests : List Call
requests =
    create orders
    ∷ subscribe (policy alice) orders
    ∷ send (codes "1") orders (codes "one")
    ∷ unsubscribe alice orders
    ∷ drop orders
    ∷ []

calls-IsValid_example : (b : Broker) × (calls new_broker requests ≡ some b) × IsValid b
calls-IsValid_example = calls-IsValid requests

-- Bob has failed twice, and fails for the third and last time.
abbrev in_flight : QueueMsg
in_flight = record (new_queue_msg (codes "1") orders (codes "one")) { retry_map = (bob, 2) ∷ [] }

abbrev finished : QueueMsg
finished = record in_flight { acked_subs = (alice, tt) ∷ (bob, tt) ∷ []; retry_map = (bob, 3) ∷ [] }

abbrev results : List DeliveryResult
results =
    record { sub_name = alice; success = true } ∷ record { sub_name = bob; success = false } ∷ []

unqueued_is_settled_example : AllSettled finished results
unfolding note_results note_result get has put str_eq
unqueued_is_settled_example = unqueued_is_settled two_subs in_flight finished results refl
