-- ===== src/DistMq/Delivery/Worker/Passes.antt =====
-- dist-mq/delivery/worker.go: what a pass does for each subscriber.
use simon_mq.Base.{
  ℕ, ◌+◌, ◌≡◌, refl, ◌∙◌, sym, ap, Bool, true, false, ◌||◌, none, some, List, [], ◌∷◌, ◌++◌, arith,
  GoString, str_eq, str_eq_iff, str_eq_refl, if◌then◌else◌,
}
use simon_mq.Dict.{Dict, Set, get, has, put}
use simon_mq.Dict.Laws.{get-put, has-put, get-empty}
use simon_mq.Dict.Keys.{IsMap}
use simon_mq.Dict.Entries.{AllEntries}
use simon_mq.Model.{limit_of, SubPolicy, or_zero}
use simon_mq.Pending.{
  get-pending_into, pending_into-IsMap, pending_into-AllEntries, IsNamed, retries_after,
  is_finished,
}
use simon_mq.DistMq.Storage.Owed.{mem}
use simon_mq.DistMq.Storage.Members.{mem-sort}
use simon_mq.DistMq.Delivery.Queue.{QueueMsg, set_of, pending_subs}
use simon_mq.DistMq.Delivery.Worker.{
  results_of, note_result, note_results, noted_of, finished_of, counted,
}

-- The list of subscribers is a map of named policies.
pub record IsListed (msg : QueueMsg) : Type 0 where
  pub is_map : IsMap msg.sub_list
  pub named : AllEntries IsNamed msg.sub_list

mem-append :
    (k : GoString) (xs : List GoString) (y : GoString)
    → mem k (xs ++ y ∷ []) ≡ (mem k xs || str_eq y k)
unfolding mem
mem-append k [] y = ground arith
mem-append k (x ∷ xs) y = ground (arith, mem-append k xs y)

pub has-set_of :
    (out : Set) (names : List GoString) (k : GoString)
    → has (set_of out names) k ≡ (has out k || mem k names)
unfolding mem
has-set_of out [] k = ground arith
has-set_of out (x ∷ xs) k = ground (arith, has-set_of (put out x tt) xs k, has-put out x k tt)

pub get-pending_subs :
    (msg : QueueMsg) (k : GoString)
    → IsMap msg.sub_list
    → get (pending_subs msg) k ≡ (if has msg.acked_subs k then none else get msg.sub_list k)
unfolding pending_subs
get-pending_subs msg k h =
    ground (arith, get-pending_into [] msg.sub_list msg.acked_subs k h, get-empty {V = SubPolicy} k)

-- One result, for a subscriber of the pending ones.
note_result_lem :
    (sent : SubPolicy → Bool) (pending : Dict SubPolicy) (retries : Dict ℕ)
    (finished : List GoString) (p : SubPolicy) (name k : GoString)
    → get pending name ≡ some p
    → (get (note_result pending (retries, finished) (record { sub_name = name; ok = sent p })).0 k
        ≡ (if str_eq name k then retries_after sent (some p) (get retries k) else get retries k))
      × (mem k (note_result pending (retries, finished) (record { sub_name = name; ok = sent p })).1
          ≡ (mem k finished
              || (if str_eq name k then is_finished sent (some p) (get retries k) else false)))
note_result_lem sent pending retries finished p name k g =
    let at : str_eq name k ≡ true → get retries name ≡ get retries k =
      λ e. ap (get retries) ((str_eq_iff name k).0 e) in
    let limit : limit_of (get pending name) ≡ p.number_of_retries = ap limit_of g in
    (
      ground (arith, get-put retries name k (or_zero (get retries name) + 1), at),
      ground (arith, mem-append k finished name, at, limit),
    )

-- The rest of the results, for the subscribers of `rest`.
note_results_lem :
    (sent : SubPolicy → Bool) (pending : Dict SubPolicy) (noted : Dict ℕ × List GoString)
    (rest : Dict SubPolicy) (k : GoString)
    → IsMap rest
    → AllEntries IsNamed rest
    → ((j : GoString) (p : SubPolicy) → get rest j ≡ some p → get pending j ≡ some p)
    → (get (note_results pending noted (results_of sent rest)).0 k
        ≡ retries_after sent (get rest k) (get noted.0 k))
      × (mem k (note_results pending noted (results_of sent rest)).1
          ≡ (mem k noted.1 || is_finished sent (get rest k) (get noted.0 k)))
unfolding note_results results_of get
note_results_lem sent pending noted [] k m n sub = (refl, ground arith)
note_results_lem sent pending noted ((j, p) ∷ rest) k m n sub =
    let now =
      note_result_lem sent pending noted.0 noted.1 p p.sub_name k
        (ap (get pending) n.0 ∙ sub j p (ground (arith, str_eq_refl j))) in
    let later =
      note_results_lem sent pending
        (note_result pending noted (record { sub_name = p.sub_name; ok = sent p })) rest k m.1 n.1
        (λ i q e. sub i q (ground (arith, str_eq_iff j i, m.0))) in
    let same : str_eq p.sub_name k ≡ str_eq j k = ap (λ i. str_eq i k) n.0 in
    let gone : str_eq j k ≡ true → get rest k ≡ none =
      λ e. ap (get rest) (sym ((str_eq_iff j k).0 e)) ∙ m.0 in
    ground (arith, now.0, now.1, later.0, later.1, same, gone)

module _ (sent : SubPolicy → Bool) (msg : QueueMsg) (listed : IsListed msg) (k : GoString) where
  pending_lem :
      get (pending_subs msg) k ≡ (if has msg.acked_subs k then none else get msg.sub_list k)
  pending_lem = get-pending_subs msg k listed.is_map

  noted_lem :
      (get (noted_of sent msg).0 k
        ≡ retries_after sent (get (pending_subs msg) k) (get msg.retry_map k))
      × (mem k (noted_of sent msg).1
          ≡ is_finished sent (get (pending_subs msg) k) (get msg.retry_map k))
  unfolding noted_of mem
  noted_lem =
      note_results_lem sent (pending_subs msg) (msg.retry_map, []) (pending_subs msg) k
        (unfold pending_subs in pending_into-IsMap [] msg.sub_list msg.acked_subs tt)
        (unfold pending_subs in
          pending_into-AllEntries IsNamed [] msg.sub_list msg.acked_subs tt listed.named)
        (λ i p e. e)

  -- A subscriber that is still pending has one failure more, unless it took the message.
  pub retries-counted : get (counted sent msg).retry_map k ≡ (
      if has msg.acked_subs k
      then get msg.retry_map k
      else retries_after sent (get msg.sub_list k) (get msg.retry_map k))
  unfolding counted
  retries-counted = ground (arith, noted_lem.0, pending_lem)

  -- The pending subscribers that took it, and those that are out of attempts.
  pub mem-finished_of : mem k (finished_of sent msg) ≡ (
      if has msg.acked_subs k
      then false
      else is_finished sent (get msg.sub_list k) (get msg.retry_map k))
  unfolding finished_of
  mem-finished_of = mem-sort k (noted_of sent msg).1 ∙ ground (arith, noted_lem.1, pending_lem)
