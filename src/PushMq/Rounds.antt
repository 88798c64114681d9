-- ===== src/PushMq/Rounds.antt =====
-- push-mq/worker.go: what a round does to a message.
use simon_mq.Base.{
  ℕ, ◌+◌, ◌≡◌, inl, inr, arith, Bool, true, false, Option, none, some, List, [], ◌∷◌, GoString,
  str_eq_refl, subst, ◌∙◌, ap, if◌then◌else◌, Option-cases,
}
use simon_mq.Dict.{Dict, get, has, put}
use simon_mq.Dict.Laws.{has-put}
use simon_mq.Model.{SubPolicy, reached, or_zero}
use simon_mq.PushMq.Queue.{QueueMsg}
use simon_mq.PushMq.Worker.{DeliveryResult, note_result, note_results, note_failure, acked}

-- Every ack stays.
abbrev pub Keeps : QueueMsg → QueueMsg → Type 0
Keeps msg msg' = (k : GoString) → has msg.acked_subs k ≡ true → has msg'.acked_subs k ≡ true

acked-Keeps : (msg : QueueMsg) (x : GoString) → Keeps msg (acked msg x)
acked-Keeps msg x k h = ground (arith, has-put msg.acked_subs x k tt, h)

acked_self : (msg : QueueMsg) (x : GoString) → has (acked msg x).acked_subs x ≡ true
acked_self msg x = ground (arith, has-put msg.acked_subs x x tt, str_eq_refl x)

-- A result after which nobody remains has settled its subscriber.
record Settles (msg msg' : QueueMsg) (b : Bool) (x : GoString) : Type 0 where
  nobody : b ≡ false
  settled : has msg'.acked_subs x ≡ true
  keeps : Keeps msg msg'

abbrev outcome : QueueMsg → Bool → Option (QueueMsg × Bool)
outcome msg remaining = some (msg, remaining)

abbrev noted : QueueMsg × Bool → Option (QueueMsg × Bool)
noted p = some p

acked-Settles :
    (msg msg' : QueueMsg) (b : Bool) (x : GoString)
    → outcome (acked msg x) b ≡ outcome msg' false
    → Settles msg msg' b x
acked-Settles msg msg' b x e =
    let same : acked msg x ≡ msg' = cc in
    record {
      nobody = cc;
      settled = subst (λ m. has m.acked_subs x ≡ true) same (acked_self msg x);
      keeps = subst (Keeps msg) same (acked-Keeps msg x);
    }

failure-Settles :
    (o : Option SubPolicy) (msg msg' : QueueMsg) (x : GoString) (b : Bool)
    → note_failure o msg x b ≡ outcome msg' false
    → Settles msg msg' b x
failure-Settles none msg msg' x b e = absurd cc
failure-Settles (some policy) msg msg' x b e = split (reached n policy.number_of_retries) e
  where
    n : ℕ
    n = or_zero (get msg.retry_map x) + 1

    counted : QueueMsg
    counted = record msg { retry_map = put msg.retry_map x n }

    split :
        (c : Bool)
        → noted (if c then (acked counted x, b) else (counted, true)) ≡ outcome msg' false
        → Settles msg msg' b x
    split true e =
        let s = acked-Settles counted msg' b x e in
        record { nobody = s.nobody; settled = s.settled; keeps = s.keeps }
    split false e = absurd cc

result-Settles :
    (policies : Dict SubPolicy) (msg msg' : QueueMsg) (b : Bool) (r : DeliveryResult)
    → note_result policies msg b r ≡ outcome msg' false
    → Settles msg msg' b r.sub_name
unfolding note_result
result-Settles policies msg msg' b r e = split r.success e
  where
    split :
        (c : Bool)
        → (if c
            then some (acked msg r.sub_name, b)
            else note_failure (get policies r.sub_name) msg r.sub_name b)
          ≡ outcome msg' false
        → Settles msg msg' b r.sub_name
    split true e = acked-Settles msg msg' b r.sub_name e
    split false e = failure-Settles (get policies r.sub_name) msg msg' r.sub_name b e

-- The subscriber of each result has acked the message, or is out of attempts.
unfoldable pub AllSettled : QueueMsg → List DeliveryResult → Type 0
AllSettled msg [] = Unit
AllSettled msg (r ∷ rs) = (has msg.acked_subs r.sub_name ≡ true) × AllSettled msg rs

record Round (policies : Dict SubPolicy) (msg msg' : QueueMsg) (b : Bool) (rs : List DeliveryResult)
    : Type 0 where
  nobody : b ≡ false
  keeps : Keeps msg msg'
  all : AllSettled msg' rs

round_lem :
    (policies : Dict SubPolicy) (msg msg' : QueueMsg) (b : Bool) (rs : List DeliveryResult)
    → note_results policies msg b rs ≡ outcome msg' false
    → Round policies msg msg' b rs
unfolding note_results AllSettled
round_lem policies msg msg' b [] e =
    let same : msg ≡ msg' = cc in
    record { nobody = cc; keeps = subst (Keeps msg) same (λ k h. h); all = tt }
round_lem policies msg msg' b (r ∷ rs) e = elim (Option-cases (note_result policies msg b r)) [
  | inl f ↦ absurd (cc (rw f at e))
  | inr ((m, b'), f) ↦
      let rest = round_lem policies m msg' b' rs (rw f at e) in
      let s = result-Settles policies msg m b r (f ∙ ap (outcome m) rest.nobody) in
      record {
        nobody = s.nobody;
        keeps = λ k h. rest.keeps k (s.keeps k h);
        all = (rest.keeps r.sub_name s.settled, rest.all);
      }
]

-- If the results of a round leave no subscriber remaining, in which case the worker does not put the
-- message back, then the subscriber of every result is among those that the message has as acked.
pub unqueued_is_settled :
    (policies : Dict SubPolicy) (msg msg' : QueueMsg) (rs : List DeliveryResult)
    → note_results policies msg false rs ≡ outcome msg' false
    → AllSettled msg' rs
unqueued_is_settled policies msg msg' rs e = (round_lem policies msg msg' false rs e).all
