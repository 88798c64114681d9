-- ===== src/Durable/Worker/Processed.antt =====
-- durable-mq/queue/worker.go: what `ProcessMsg` leaves in the message, in the queue and in the log.
use simon_mq.Base.{
  ◌≡◌, ◌↔◌, refl, sym, ap, inl, inr, Bool, false, ◌||◌, some, List, [], ◌∷◌, ◌++◌, GoString,
  if◌then◌else◌, Bool-cases,
}
use simon_mq.Dict.{get, has}
use simon_mq.Model.{SubPolicy}
use simon_mq.Pending.{empty-cases, retries_after}
use simon_mq.Ring.{Ring}
use simon_mq.Ring.Valid.{Holds}
use simon_mq.Ring.Add.{add_lem}
use simon_mq.Durable.Model.{Codec}
use simon_mq.Durable.Wal.Writer.{Io}
use simon_mq.Durable.Wal.Log.{syncs}
use simon_mq.Durable.Coordinator.{Coordinator}
use simon_mq.Durable.Worker.{
  QueueMsg, policy_by_name, results_of, Round, note_results, deliver, process_msg, requeue,
}
use simon_mq.Durable.Worker.Rounds.{acks_ok, acked_by}
use simon_mq.Durable.Worker.Settled.{
  IsListed, IsSettled, deliver-acks, deliver-retries, deliver-IsSettled,
}

module _ (codec : Codec) (queue_name : GoString) (io : GoString → Io)
    (sent : SubPolicy → Bool) where
  -- A message that nobody is owed stays as it is.
  deliver_idle :
      (cord : Coordinator) (msg : QueueMsg)
      → policy_by_name msg ≡ []
      → deliver codec queue_name io sent cord msg
        ≡ record { cord = cord; msg = msg; any_subs_remaining = false }
  unfolding deliver note_results results_of
  deliver_idle cord msg e = rw e refl

  pub process_msg_lem :
      (q : Ring QueueMsg) (xs : List QueueMsg) (cord : Coordinator) (msg : QueueMsg)
      → Holds q xs
      → let s = deliver codec queue_name io sent cord msg in
        (q' : Ring QueueMsg) × (process_msg codec queue_name io sent q cord msg ≡ some (s, q'))
        × Holds q' (if s.any_subs_remaining then xs ++ s.msg ∷ [] else xs)
  unfolding process_msg
  process_msg_lem q xs cord msg h = elim (empty-cases (policy_by_name msg)) [
    | inl e ↦
        let idle = deliver_idle cord msg e in
        (q, rw e (ap (λ s. some (s, q)) (sym idle)), rw idle h)
    | inr e ↦ rw e (requeue_lem (deliver codec queue_name io sent cord msg))
  ]
    where
      requeue_lem :
          (s : Round)
          → (q' : Ring QueueMsg) × (requeue codec queue_name io q s ≡ some (s, q'))
            × Holds q' (if s.any_subs_remaining then xs ++ s.msg ∷ [] else xs)
      requeue_lem s = elim (Bool-cases s.any_subs_remaining) [
        | inl e ↦
            let (q', added, held, _) = add_lem q xs s.msg h in (q', rw e (rw added refl), rw e held)
        | inr e ↦ (q, rw e refl, rw e h)
      ]

  -- A round over a message whose policies are a map and stand under their own names never panics. A
  -- subscriber ends up acked exactly if it was, or if it took the message or used up its attempts and
  -- the append of its ack was accepted; each failed request to a subscriber that was pending is counted,
  -- and no other count changes. The message leaves the queue exactly if every subscriber is acked,
  -- and goes to the end of the queue if not.
  pub process_msg-subscribers :
      (q : Ring QueueMsg) (xs : List QueueMsg) (cord : Coordinator) (msg : QueueMsg)
      → Holds q xs
      → IsListed msg
      → (s : Round) × (q' : Ring QueueMsg) × (process_msg codec queue_name io sent q cord msg
          ≡ some (s, q'))
        × ((k : GoString)
            → has s.msg.acked_subs k ≡ (
                has msg.acked_subs k
                || acked_by sent
                    (acks_ok (syncs cord.log) io)
                    (get msg.sub_policy_snapshot k)
                    (get msg.retry_map k)
                    k))
        × ((k : GoString)
            → get s.msg.retry_map k ≡ (
                if has msg.acked_subs k
                then get msg.retry_map k
                else retries_after sent (get msg.sub_policy_snapshot k) (get msg.retry_map k)))
        × (s.any_subs_remaining ≡ false ↔ IsSettled s.msg)
        × Holds q' (if s.any_subs_remaining then xs ++ s.msg ∷ [] else xs)
  process_msg-subscribers q xs cord msg h listed =
      let (q', made, held) = process_msg_lem q xs cord msg h in
      (
        deliver codec queue_name io sent cord msg,
        q',
        made,
        deliver-acks codec queue_name io sent cord msg listed,
        deliver-retries codec queue_name io sent cord msg listed,
        deliver-IsSettled codec queue_name io sent cord msg listed,
        held,
      )
