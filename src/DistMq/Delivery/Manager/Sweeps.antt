-- ===== src/DistMq/Delivery/Manager/Sweeps.antt =====
-- dist-mq/delivery/manager.go: the sweep schedules everything that the storage owes.
use simon_mq.Base.{
  ◌≡◌, refl, ◌∙◌, sym, ap, inl, inr, Bool, true, false, not, ◌&&◌, ◌||◌, Option, some, List, [],
  ◌∷◌, arith, GoString, str_eq, str_eq_iff, any, length, ◌==◌, subst, Bool-cases, Option-cases,
}
use simon_mq.Dict.{Dict, has, put}
use simon_mq.Dict.Laws.{has-put}
use simon_mq.Dict.Keys.{KeysIn}
use simon_mq.DistMq.Storage.{Storage, MessageInfo, pending_messages}
use simon_mq.DistMq.Delivery.Queue
use simon_mq.DistMq.Delivery.Queue.{set_of, new_queue_msg}
use simon_mq.DistMq.Delivery.Manager.{
  Manager, info_pending, queue_for, schedule, schedule_all, sweep_queues, or_nil,
}

-- A message of that id that has a subscriber left.
abbrev pub is_due : GoString → MessageInfo → Bool
is_due id info = str_eq info.msg_id id && not (length (info_pending info) == 0)

-- What runs goes on, and what is in flight stays.
pub record Extends (m m' : Manager) : Type 0 where
  pub running : m'.running ≡ m.running
  pub in_flight : KeysIn m.in_flight m'.in_flight

abbrev returned : Manager → Option Manager
returned m = some m

-- What a call of `Schedule` leaves in flight.
record Scheduled (m : Manager) (info : MessageInfo) (m' : Manager) : Type 0 where
  pub extends : Extends m m'
  pub covers :
      (id : GoString) → m.running ≡ true → is_due id info ≡ true → has m'.in_flight id ≡ true

as_it_is :
    (m m' : Manager) (info : MessageInfo)
    → returned m ≡ returned m'
    → (m.running && not (has m.in_flight info.msg_id) && not (length (info_pending info) == 0))
      ≡ false
    → Scheduled m info m'
as_it_is m m' info e off =
    let same : m ≡ m' = cc in
    record {
      extends = record {
        running = ap (λ x. x.running) (sym same);
        in_flight = subst (λ x. KeysIn m.in_flight x.in_flight) same (λ k h. h);
      };
      covers = λ id r d.
          subst (λ x. has x.in_flight id ≡ true) same
            (ground (arith, off, str_eq_iff info.msg_id id));
    }

put_in_flight :
    (m m' : Manager) (qs : Dict Queue.Queue) (info : MessageInfo)
    → returned (record m { queues = qs; in_flight = put m.in_flight info.msg_id tt }) ≡ returned m'
    → Scheduled m info m'
put_in_flight m m' qs info e =
    let n : Manager = record m { queues = qs; in_flight = put m.in_flight info.msg_id tt } in
    let same : n ≡ m' = cc in
    record {
      extends = record {
        running = ap (λ x. x.running) (sym same);
        in_flight =
            subst (λ x. KeysIn m.in_flight x.in_flight) same
              (λ k h. ground (arith, has-put m.in_flight info.msg_id k tt));
      };
      covers = λ id r d.
          subst (λ x. has x.in_flight id ≡ true) same
            (ground (arith, has-put m.in_flight info.msg_id id tt));
    }

schedule-Scheduled :
    (m m' : Manager) (name : GoString) (info : MessageInfo)
    → schedule m name info ≡ some m'
    → Scheduled m info m'
unfolding schedule
schedule-Scheduled m m' name info e = elim (Bool-cases m.running) [
  | inr r ↦ as_it_is m m' info (ground (arith, e, r)) (ground (arith, r))
  | inl r ↦ elim (Bool-cases (has m.in_flight info.msg_id)) [
    | inl f ↦ as_it_is m m' info (ground (arith, e, r, f)) (ground (arith, f))
    | inr f ↦ elim (Bool-cases (length (info_pending info) == 0)) [
      | inl g ↦ as_it_is m m' info (ground (arith, e, r, f, g)) (ground (arith, g))
      | inr g ↦ elim (Option-cases (Queue.add (queue_for m name) (new_queue_msg info))) [
        | inl a ↦ absurd (ground (arith, e, r, f, g, a))
        | inr (q, a) ↦ put_in_flight m m' (put m.queues name q) info (ground (arith, e, r, f, g, a))
      ]
    ]
  ]
]

Extends-refl : (m : Manager) → Extends m m
Extends-refl m = record { running = refl; in_flight = λ k h. h }

Extends-trans : {m n p : Manager} → Extends m n → Extends n p → Extends m p
Extends-trans a b = record {
  running = b.running ∙ a.running;
  in_flight = λ k h. b.in_flight k (a.in_flight k h);
}

-- What a series of calls leaves in flight, where `due` tells which ids it is about.
pub record Covered (m : Manager) (due : GoString → Bool) (m' : Manager) : Type 0 where
  pub extends : Extends m m'
  pub covers : (id : GoString) → m.running ≡ true → due id ≡ true → has m'.in_flight id ≡ true

nothing-Covered : (m m' : Manager) → returned m ≡ returned m' → Covered m (λ id. false) m'
nothing-Covered m m' e =
    let same : m ≡ m' = cc in
    record { extends = subst (Extends m) same (Extends-refl m); covers = λ id r d. absurd cc }

then-Covered :
    {m n p : Manager} {a b : GoString → Bool}
    → Covered m a n
    → Covered n b p
    → Covered m (λ id. a id || b id) p
then-Covered {a} x y = record {
  extends = Extends-trans x.extends y.extends;
  covers = λ id r d. elim (Bool-cases (a id)) [
    | inl e ↦ y.extends.in_flight id (x.covers id r e)
    | inr e ↦ y.covers id (x.extends.running ∙ r) (rw e at d)
  ];
}

schedule_all-Covered :
    (m m' : Manager) (name : GoString) (infos : List MessageInfo)
    → schedule_all m name infos ≡ some m'
    → Covered m (λ id. any (is_due id) infos) m'
unfolding schedule_all
schedule_all-Covered m m' name [] e = nothing-Covered m m' e
schedule_all-Covered m m' name (info ∷ infos) e = elim (Option-cases (schedule m name info)) [
  | inl f ↦ absurd (cc (rw f at e))
  | inr (n, f) ↦
      let first = schedule-Scheduled m n name info f in
      then-Covered {a = λ id. is_due id info}
        (record { extends = first.extends; covers = first.covers })
        (schedule_all-Covered n m' name infos (rw f at e))
]

-- The due messages of the queues of these names.
abbrev pub is_due_in : Storage → List GoString → GoString → Bool
is_due_in s [] id = false
is_due_in s (name ∷ names) id =
    any (is_due id) (or_nil (pending_messages s name)) || is_due_in s names id

pub sweep_queues-Covered :
    (s : Storage) (m m' : Manager) (names : List GoString)
    → sweep_queues s m names ≡ some m'
    → Covered m (is_due_in s names) m'
unfolding sweep_queues
sweep_queues-Covered s m m' [] e = nothing-Covered m m' e
sweep_queues-Covered s m m' (name ∷ names) e =
    elim (Option-cases (schedule_all m name (or_nil (pending_messages s name)))) [
      | inl f ↦ absurd (cc (rw f at e))
      | inr (n, f) ↦
          then-Covered {a = λ id. any (is_due id) (or_nil (pending_messages s name))}
            (schedule_all-Covered m n name (or_nil (pending_messages s name)) f)
            (sweep_queues-Covered s n m' names (rw f at e))
    ]
