-- ===== src/Durable/Worker/Settled.antt =====
-- durable-mq/queue/worker.go: which rounds leave nobody, and what they mean for the message.
use simon_mq.Base.{
  Option, ◌≡◌, ◌↔◌, refl, ◌∙◌, sym, ap, subst, inl, inr, Bool, true, false, ◌||◌, none, some, [],
  ◌∷◌, arith, GoString, str_eq, str_eq_iff, str_eq_refl, if◌then◌else◌, Bool-cases,
}
use simon_mq.Dict.{Dict, get, has}
use simon_mq.Dict.Laws.{get-empty}
use simon_mq.Dict.Keys.{IsMap, KeysIn}
use simon_mq.Dict.Entries.{AllEntries}
use simon_mq.Model.{SubPolicy}
use simon_mq.Pending.{
  get-pending_into, pending_into-IsMap, pending_into-AllEntries, IsNamed, retries_after,
}
use simon_mq.Durable.Model.{Codec}
use simon_mq.Durable.Wal.Writer.{Io}
use simon_mq.Durable.Wal.Log.{syncs}
use simon_mq.Durable.Coordinator.{Coordinator}
use simon_mq.Durable.Worker.{
  QueueMsg, policy_by_name, results_of, Round, note_result, note_results, deliver,
}
use simon_mq.Durable.Worker.Rounds.{acks_ok, acked_by, NotedAll, note_result_lem, note_results_lem}

-- A key of the rest is not the first.
apart_lem :
    (j : GoString) (p : SubPolicy) (rest : Dict SubPolicy)
    → get rest j ≡ none
    → (k : GoString) → has rest k ≡ true
    → (str_eq j k ≡ false) × (has ((j, p) ∷ rest) k ≡ true)
unfolding get has
apart_lem j p rest e k h = elim (Bool-cases (str_eq j k)) [
  | inl f ↦
      let gone : get rest k ≡ none = ap (get rest) (sym ((str_eq_iff j k).0 f)) ∙ e in
      absurd (cc (rw gone at h))
  | inr f ↦ (f, rw f h)
]

module _ (codec : Codec) (queue_name : GoString) (io : GoString → Io) (kind : Option Bool)
    (sent : SubPolicy → Bool) where
  -- The results of a round over `rest`, from the state `s`.
  abbrev rounded : Dict SubPolicy → Round → Dict SubPolicy → Round
  rounded policies s rest = note_results codec queue_name io policies s (results_of sent rest)

  -- A round that ends with nobody left began so, and acked every one of its subscribers.
  none_left :
      (policies : Dict SubPolicy) (s : Round) (rest : Dict SubPolicy)
      → syncs s.cord.log ≡ kind
      → IsMap rest
      → AllEntries IsNamed rest
      → ((j : GoString) (p : SubPolicy) → get rest j ≡ some p → get policies j ≡ some p)
      → (rounded policies s rest).any_subs_remaining ≡ false
      → (s.any_subs_remaining ≡ false)
        × ((k : GoString)
            → has rest k ≡ true
            → has (rounded policies s rest).msg.acked_subs k ≡ true)
  unfolding note_results results_of get has
  none_left policies s [] same_kind m n sub e = (e, λ k h. absurd cc)
  none_left policies s ((j, p) ∷ rest) same_kind m n sub e =
      let found = ap (get policies) n.0 ∙ sub j p (ground (arith, str_eq_refl j)) in
      let below : (i : GoString) (q : SubPolicy) → get rest i ≡ some q → get policies i ≡ some q =
        λ i q f. sub i q (ground (arith, str_eq_iff j i, m.0)) in
      let s1 =
        note_result codec queue_name io policies s
          (record { sub_name = p.sub_name; success = sent p }) in
      let now =
        note_result_lem codec queue_name io kind sent policies s p p.sub_name p.sub_name same_kind
          found in
      let (was, all) = none_left policies s1 rest now.kept_kind m.1 n.1 below e in
      (
        ground (arith, now.remaining, was),
        λ k h. elim (Bool-cases (str_eq j k)) [
          | inl f ↦
              let later =
                note_results_lem codec queue_name io kind sent policies s1 rest p.sub_name
                  now.kept_kind m.1 n.1 below in
              let last : Round = rounded policies s1 rest in
              let done : has last.msg.acked_subs p.sub_name ≡ true =
                ground
                  (arith, later.all_acks, now.acks, now.remaining, was, str_eq_refl p.sub_name) in
              subst (λ i. has last.msg.acked_subs i ≡ true) (n.0 ∙ (str_eq_iff j k).0 f) done
          | inr f ↦ all k (rw f at h)
        ],
      )

  -- A round whose subscribers are all acked at its end leaves nobody.
  all_acked :
      (policies : Dict SubPolicy) (s : Round) (rest : Dict SubPolicy)
      → syncs s.cord.log ≡ kind
      → IsMap rest
      → AllEntries IsNamed rest
      → ((j : GoString) (p : SubPolicy) → get rest j ≡ some p → get policies j ≡ some p)
      → s.any_subs_remaining ≡ false
      → ((k : GoString) → has rest k ≡ true → has s.msg.acked_subs k ≡ false)
      → ((k : GoString) → has rest k ≡ true → has (rounded policies s rest).msg.acked_subs k ≡ true)
      → (rounded policies s rest).any_subs_remaining ≡ false
  unfolding note_results results_of get has
  all_acked policies s [] same_kind m n sub e fresh all = e
  all_acked policies s ((j, p) ∷ rest) same_kind m n sub e fresh all =
      let found = ap (get policies) n.0 ∙ sub j p (ground (arith, str_eq_refl j)) in
      let below : (i : GoString) (q : SubPolicy) → get rest i ≡ some q → get policies i ≡ some q =
        λ i q f. sub i q (ground (arith, str_eq_iff j i, m.0)) in
      let s1 : Round =
        note_result codec queue_name io policies s
          (record { sub_name = p.sub_name; success = sent p }) in
      let head_fresh : has s.msg.acked_subs j ≡ false = fresh j (ground (arith, str_eq_refl j)) in
      let now =
        note_result_lem codec queue_name io kind sent policies s p p.sub_name p.sub_name same_kind
          found in
      let now_j =
        note_result_lem codec queue_name io kind sent policies s p p.sub_name j same_kind found in
      let later =
        note_results_lem codec queue_name io kind sent policies s1 rest j now.kept_kind m.1 n.1
          below in
      let head_done = all j (ground (arith, str_eq_refl j)) in
      let same : acks_ok kind io p.sub_name ≡ acks_ok kind io j = ap (acks_ok kind io) n.0 in
      let old : get s.msg.retry_map p.sub_name ≡ get s.msg.retry_map j =
        ap (get s.msg.retry_map) n.0 in
      all_acked policies s1 rest now.kept_kind m.1 n.1 below
        (ground (
          arith, e, head_fresh, now.remaining, now_j.acks, later.all_acks, head_done, m.0, same,
          old,
        ))
        (λ k h.
          let at =
            note_result_lem codec queue_name io kind sent policies s p p.sub_name k same_kind
              found in
          let other : str_eq p.sub_name k ≡ str_eq j k = ap (λ i. str_eq i k) n.0 in
          let apart = apart_lem j p rest m.0 k h in
          ground (arith, at.acks, other, apart.0, fresh k apart.1))
        (λ k h. all k (apart_lem j p rest m.0 k h).1)

-- The subscribers of a message are a map of named policies.
pub record IsListed (msg : QueueMsg) : Type 0 where
  pub is_map : IsMap msg.sub_policy_snapshot
  pub named : AllEntries IsNamed msg.sub_policy_snapshot

-- Every subscriber has acked the message, or used up its attempts, and its ack was accepted.
abbrev pub IsSettled : QueueMsg → Type 0
IsSettled msg = KeysIn msg.sub_policy_snapshot msg.acked_subs

get-policy_by_name :
    (msg : QueueMsg) (k : GoString)
    → IsMap msg.sub_policy_snapshot
    → get (policy_by_name msg) k
      ≡ (if has msg.acked_subs k then none else get msg.sub_policy_snapshot k)
unfolding policy_by_name
get-policy_by_name msg k h = ground (
  arith,
  get-pending_into [] msg.sub_policy_snapshot msg.acked_subs k h,
  get-empty {V = SubPolicy} k,
)

module _ (codec : Codec) (queue_name : GoString) (io : GoString → Io) (sent : SubPolicy → Bool)
    (cord : Coordinator) (msg : QueueMsg) (listed : IsListed msg) where
  abbrev start : Round
  start = record { cord = cord; msg = msg; any_subs_remaining = false }

  abbrev final : Round
  final = deliver codec queue_name io sent cord msg

  policies-IsMap : IsMap (policy_by_name msg)
  unfolding policy_by_name
  policies-IsMap = pending_into-IsMap [] msg.sub_policy_snapshot msg.acked_subs tt

  policies-IsNamed : AllEntries IsNamed (policy_by_name msg)
  unfolding policy_by_name
  policies-IsNamed =
      pending_into-AllEntries IsNamed [] msg.sub_policy_snapshot msg.acked_subs tt listed.named

  deliver_lem :
      (k : GoString)
      → NotedAll codec queue_name io (syncs cord.log) sent start final (policy_by_name msg) k
  unfolding deliver
  deliver_lem k =
      note_results_lem codec queue_name io (syncs cord.log) sent (policy_by_name msg) start
        (policy_by_name msg) k refl policies-IsMap policies-IsNamed (λ j p e. e)

  pub deliver-acks :
      (k : GoString)
      → has final.msg.acked_subs k ≡ (
          has msg.acked_subs k
          || acked_by sent
              (acks_ok (syncs cord.log) io)
              (get msg.sub_policy_snapshot k)
              (get msg.retry_map k)
              k)
  deliver-acks k =
      let noted = deliver_lem k in
      ground (arith, noted.all_acks, get-policy_by_name msg k listed.is_map)

  pub deliver-retries :
      (k : GoString)
      → get final.msg.retry_map k ≡ (
          if has msg.acked_subs k
          then get msg.retry_map k
          else retries_after sent (get msg.sub_policy_snapshot k) (get msg.retry_map k))
  deliver-retries k =
      let noted = deliver_lem k in
      ground (arith, noted.all_retries, get-policy_by_name msg k listed.is_map)

  pub deliver-IsSettled : final.any_subs_remaining ≡ false ↔ IsSettled final.msg
  unfolding deliver has
  deliver-IsSettled = (
    (λ e k h.
        let kept = (deliver_lem k).all_snapshot in
        let listed_here : has msg.sub_policy_snapshot k ≡ true = rw kept at h in
        let (_, all) =
          none_left codec queue_name io (syncs cord.log) sent (policy_by_name msg) start
            (policy_by_name msg) refl policies-IsMap policies-IsNamed (λ j p f. f) e in
        elim (Bool-cases (has msg.acked_subs k)) [
          | inl a ↦ ground (arith, deliver-acks k, a)
          | inr a ↦ all k (ground (arith, get-policy_by_name msg k listed.is_map, a, listed_here))
        ]),
    (λ settled.
        all_acked codec queue_name io (syncs cord.log) sent (policy_by_name msg) start
          (policy_by_name msg) refl policies-IsMap policies-IsNamed (λ j p f. f) refl
          (λ k h. ground (arith, get-policy_by_name msg k listed.is_map, h))
          (λ k h. settled k (
            ap (λ m. has m k) (deliver_lem k).all_snapshot
            ∙ ground (arith, get-policy_by_name msg k listed.is_map, h)))),
  )
