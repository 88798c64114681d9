-- ===== src/PushMq/Worker.antt =====
-- push-mq/worker.go: one round of the delivery of a message. The outcomes of the requests are the
-- argument `sent`; they arrive in the order of the map of the policies. An absent result is a panic.
use simon_mq.Base.{
  ◌+◌, ◌==◌, Bool, true, false, Option, none, some, List, [], ◌∷◌, GoString, length, if◌then◌else◌,
  ◌>>=◌,
}
use simon_mq.Dict.{Dict, Set, get, has, put}
use simon_mq.Model.{SubPolicy, reached, or_zero}
use simon_mq.PushMq.Queue
use simon_mq.PushMq.Queue.{Queue, QueueMsg}

pub record DeliveryResult : Type 0 where
  pub sub_name : GoString
  pub success : Bool

-- The policies of the subscribers that have not acked.
unfoldable pub policies_without : Dict SubPolicy → Dict SubPolicy → Set → Dict SubPolicy
policies_without out [] acked = out
policies_without out ((name, policy) ∷ policies) acked =
    policies_without (if has acked name then out else put out name policy) policies acked

unfoldable pub results_of : (SubPolicy → Bool) → Dict SubPolicy → List DeliveryResult
results_of sent [] = []
results_of sent ((name, policy) ∷ policies) =
    record { sub_name = policy.sub_name; success = sent policy } ∷ results_of sent policies

abbrev pub acked : QueueMsg → GoString → QueueMsg
acked msg sub_name = record msg { acked_subs = put msg.acked_subs sub_name tt }

-- The message, and whether a subscriber remains. A name without a policy is a nil pointer.
abbrev pub note_failure : Option SubPolicy → QueueMsg → GoString → Bool → Option (QueueMsg × Bool)
note_failure none msg sub_name remaining = none
note_failure (some policy) msg sub_name remaining =
    let n = or_zero (get msg.retry_map sub_name) + 1 in
    let msg' : QueueMsg = record msg { retry_map = put msg.retry_map sub_name n } in
    some (
      if reached n policy.number_of_retries then (acked msg' sub_name, remaining) else (msg', true))

unfoldable pub note_result :
    Dict SubPolicy → QueueMsg → Bool → DeliveryResult → Option (QueueMsg × Bool)
note_result policies msg remaining result =
    if result.success
    then some (acked msg result.sub_name, remaining)
    else note_failure (get policies result.sub_name) msg result.sub_name remaining

unfoldable pub note_results :
    Dict SubPolicy → QueueMsg → Bool → List DeliveryResult → Option (QueueMsg × Bool)
note_results policies msg remaining [] = some (msg, remaining)
note_results policies msg remaining (result ∷ results) = (do
  (msg', remaining') ← note_result policies msg remaining result
  note_results policies msg' remaining' results)

-- The queue after the round: the message is added again where a failed subscriber has attempts left.
unfoldable pub process_msg : (SubPolicy → Bool) → Queue → QueueMsg → Option Queue
process_msg sent q msg =
    let policies = policies_without [] q.sub_policies msg.acked_subs in
    if length policies == 0 then some q else (do
      (msg', remaining) ← note_results policies msg false (results_of sent policies)
      if remaining then Queue.add q msg' else some q)
