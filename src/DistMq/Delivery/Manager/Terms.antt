-- ===== src/DistMq/Delivery/Manager/Terms.antt =====
-- dist-mq/delivery/manager.go: the start and the end of a term.
use simon_mq.Base.{
  ℕ, zero, suc, ◌≡◌, refl, inl, inr, Bool, true, false, Option, some, List, [], ◌∷◌, ◌++◌, ◌<◌, map,
  length, arith, GoString, Bool-cases,
}
use simon_mq.Dict.{Dict, Set, get, has}
use simon_mq.Dict.Totals.{total}
use simon_mq.Model.{SubPolicy}
use simon_mq.DistMq.Storage.{Storage, MessageInfo, queue_names, pending_messages}
use simon_mq.DistMq.Storage.Valid.{IsValid}
use simon_mq.DistMq.Storage.Owed.{owed}
use simon_mq.DistMq.Delivery.Queue.{Queue, QueueMsg}
use simon_mq.DistMq.Delivery.Manager.{
  Manager, schedule_all, sweep_queues, sweep, demote, promote, promote_with_retry, promote_attempts,
  Attempt, or_nil,
}
use simon_mq.DistMq.Delivery.Manager.Held.{System}
use simon_mq.DistMq.Delivery.Manager.Once.{HoldsOnce, schedule-HoldsOnce}
use simon_mq.DistMq.Delivery.Manager.Due.{sweep-covers, sweep-running}

module _ (hands : Dict (Option QueueMsg)) where
  abbrev system : Manager → System
  system m = record { manager = m; hands = hands }

  abbrev Sweeps : Option Manager → Type 0
  Sweeps o = (m : Manager) × (o ≡ some m) × HoldsOnce (system m)

  schedule_all-HoldsOnce :
      (m : Manager) (name : GoString) (infos : List MessageInfo)
      → HoldsOnce (system m)
      → Sweeps (schedule_all m name infos)
  unfolding schedule_all
  schedule_all-HoldsOnce m name [] h = (m, refl, h)
  schedule_all-HoldsOnce m name (info ∷ infos) h =
      let (n, made, h') = schedule-HoldsOnce (system m) name info h in
      rw made (schedule_all-HoldsOnce n name infos h')

  sweep_queues-HoldsOnce :
      (s : Storage) (m : Manager) (names : List GoString)
      → HoldsOnce (system m)
      → Sweeps (sweep_queues s m names)
  unfolding sweep_queues
  sweep_queues-HoldsOnce s m [] h = (m, refl, h)
  sweep_queues-HoldsOnce s m (name ∷ names) h =
      let (n, made, h') = schedule_all-HoldsOnce m name (or_nil (pending_messages s name)) h in
      rw made (sweep_queues-HoldsOnce s n names h')

  -- A sweep of a running manager that holds each message in flight once, over a valid storage, panics nowhere,
  -- keeps that so, and leaves every message in flight that the storage owes to somebody.
  pub sweep-HoldsOnce :
      (s : Storage) (m : Manager)
      → IsValid s
      → m.running ≡ true
      → HoldsOnce (system m)
      → (m' : Manager) × (sweep s m ≡ some m')
        × HoldsOnce (system m')
        × ((name id sub : GoString) (p : SubPolicy)
            → owed s name id sub ≡ some p
            → has m'.in_flight id ≡ true)
  unfolding sweep
  sweep-HoldsOnce s m v r h =
      let (m', made, h') = sweep_queues-HoldsOnce s m (queue_names s) h in
      (m', made, h', λ name id sub p o. sweep-covers s m m' name id sub p v r made o)

-- A system of a manager without queues and of workers that hold nothing.
pub nothing-HoldsOnce :
    (b : Bool)
    → HoldsOnce
        (record { manager = record { running = b; queues = []; in_flight = [] }; hands = [] })
unfolding total has
nothing-HoldsOnce b = ([], record { queues = tt; once = λ id. unfold get in refl })

-- A manager that does not run holds nothing.
abbrev pub IsRested : Manager → Type 0
IsRested m = m.running ≡ false → (m.queues ≡ []) × (m.in_flight ≡ [])

abbrev fresh : Manager
fresh = record { running = true; queues = []; in_flight = [] }

demoted_fresh : (m : Manager) → IsRested m → record (demote m) { running = true } ≡ fresh
unfolding demote
demoted_fresh m idle = elim (Bool-cases m.running) [
  | inl e ↦ rw e refl
  | inr e ↦ rw e (emptied m.queues m.in_flight (idle e).0 (idle e).1)
]
  where
    emptied :
        (qs : Dict Queue) (ids : Set)
        → qs ≡ []
        → ids ≡ []
        → record { running = true; queues = qs; in_flight = ids } ≡ fresh
    emptied qs ids e f = rw (e, f) refl

-- A promotion whose barrier succeeds, with a valid storage behind it, panics nowhere and leaves a
-- running manager that holds every message which the storage owes to somebody, each of them once
-- and in a queue of the new term.
pub promote-HoldsOnce :
    (s : Storage) (m : Manager)
    → IsValid s
    → IsRested m
    → (m' : Manager) × (promote s true m ≡ some (true, m'))
      × (m'.running ≡ true)
      × HoldsOnce (record { manager = m'; hands = [] })
      × ((name id sub : GoString) (p : SubPolicy)
          → owed s name id sub ≡ some p
          → has m'.in_flight id ≡ true)
unfolding promote
promote-HoldsOnce s m v idle =
    let (m', made, once, owing) = sweep-HoldsOnce [] s fresh v refl (nothing-HoldsOnce true) in
    (m', rw (demoted_fresh m idle, made) refl, sweep-running s fresh m' made, once, owing)

demote-IsRested : (m : Manager) → IsRested m → IsRested (demote m)
unfolding demote
demote-IsRested m idle e = elim (Bool-cases m.running) [
  | inl r ↦ rw r (refl, refl)
  | inr r ↦ rw r (idle r)
]

-- An attempt of a leader whose barrier fails, and one whose barrier succeeds.
abbrev pub failing : Storage → Attempt
failing s = record { is_leader = true; barrier_ok = false; store = s }

abbrev pub succeeding : Storage → Attempt
succeeding s = record { is_leader = true; barrier_ok = true; store = s }

-- `n` attempts are enough for fewer failures.
retry_lem :
    (n : ℕ) (fails : List Storage) (s : Storage) (rest : List Attempt) (m : Manager)
    → length fails < n
    → IsValid s
    → IsRested m
    → (m' : Manager) × (promote_with_retry n (map failing fails ++ succeeding s ∷ rest) m ≡ some m')
      × (m'.running ≡ true)
      × HoldsOnce (record { manager = m'; hands = [] })
      × ((name id sub : GoString) (p : SubPolicy)
          → owed s name id sub ≡ some p
          → has m'.in_flight id ≡ true)
unfolding promote_with_retry
retry_lem zero fails s rest m lt v idle = absurd (omega arith)
retry_lem (suc n) [] s rest m lt v idle =
    let (m', made, runs, once, owing) = promote-HoldsOnce s m v idle in
    (m', rw made refl, runs, once, owing)
retry_lem (suc n) (f ∷ fails) s rest m lt v idle =
    rw promote_failed (retry_lem n fails s rest (demote m) (omega arith) v (demote-IsRested m idle))
  where
    promote_failed : promote f false m ≡ some (false, demote m)
    promote_failed = unfold promote in refl

-- If at most three barriers fail, the promotion of a node that keeps leading succeeds: the fourth
-- attempt is still made. It leaves a running manager that has every message in flight that the storage of that
-- moment owes to somebody, and holds each message in flight once. (This is about the identifiers of
-- the messages, and not yet their delivery.)
pub retry-HoldsOnce :
    (fails : List Storage) (s : Storage) (rest : List Attempt) (m : Manager)
    → length fails < promote_attempts
    → IsValid s
    → IsRested m
    → (m' : Manager) × (promote_with_retry promote_attempts
          (map failing fails ++ succeeding s ∷ rest)
          m
        ≡ some m')
      × (m'.running ≡ true)
      × HoldsOnce (record { manager = m'; hands = [] })
      × ((name id sub : GoString) (p : SubPolicy)
          → owed s name id sub ≡ some p
          → has m'.in_flight id ≡ true)
retry-HoldsOnce fails s rest m lt v idle = retry_lem promote_attempts fails s rest m lt v idle
