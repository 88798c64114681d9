-- ===== src/Durable/Coordinator/Logged.antt =====
-- durable-mq/coordinator/coordinator.go: what the records of a log make of the catalog, and that a
-- replay which ends without error builds just that.
use simon_mq.Base.{
  ℕ, ◌+◌, ◌≡◌, refl, ◌∙◌, sym, ap, arith, ◌==◌, Bool, true, false, none, some, List, [], ◌∷◌, ◌++◌,
  if◌then◌else◌,
}
use simon_mq.Durable.Model.{Codec}
use simon_mq.Durable.Record
use simon_mq.Durable.Record.{Record}
use simon_mq.Durable.Wal.Writer.Sessions.{numbered_from}
use simon_mq.Durable.Catalog
use simon_mq.Durable.Catalog.{Catalog, CatalogError, process_record}
use simon_mq.Durable.Delivery
use simon_mq.Durable.Delivery.{process_enqueue, process_ack}
use simon_mq.Durable.Coordinator.{
  Replay, Result, ok, err, replay_record, replay_records, catalog_outcome, delivery_outcome,
}

module _ (codec : Codec) where
  -- The catalog that the records of a log make.
  unfoldable pub logged : Catalog → List Record → Catalog
  logged cat [] = cat
  logged cat (r ∷ rs) = logged ((process_record codec cat r).1) rs

  -- The number of a record does not matter to it.
  pub logged-numbered_from :
      (n : ℕ) (cat : Catalog) (rs : List Record) → logged cat (numbered_from n rs) ≡ logged cat rs
  unfolding logged process_record
  logged-numbered_from n cat [] = refl
  logged-numbered_from n cat (r ∷ rs) =
      logged-numbered_from (n + 1) ((process_record codec cat r).1) rs

  pub logged-append :
      (cat : Catalog) (rs ss : List Record) → logged cat (rs ++ ss) ≡ logged (logged cat rs) ss
  unfolding logged
  logged-append cat [] ss = refl
  logged-append cat (r ∷ rs) ss = logged-append ((process_record codec cat r).1) rs ss

  delivery_outcome-cat :
      (o : Delivery.Outcome) (s s' : Replay) → delivery_outcome o s ≡ ok s' → s'.cat ≡ s.cat
  delivery_outcome-cat (none, deli) s s' h = cc
  delivery_outcome-cat (some e, deli) s s' h = cc

  catalog_outcome-cat :
      (o : Catalog.Outcome) (s s' : Replay) (r : Record)
      → catalog_outcome o s r ≡ ok s'
      → s'.cat ≡ o.1
  catalog_outcome-cat (none, cat) s s' r h = cc
  catalog_outcome-cat (some e, cat) s s' r h = cc

  pub process_record-enqueue :
      (cat : Catalog) (r : Record)
      → (r.op_type == Record.op_enqueue) ≡ true
      → (process_record codec cat r).1 ≡ cat
  unfolding process_record
  process_record-enqueue cat r e = ground arith

  pub process_record-ack :
      (cat : Catalog) (r : Record)
      → (r.op_type == Record.op_ack) ≡ true
      → (process_record codec cat r).1 ≡ cat
  unfolding process_record
  process_record-ack cat r e = ground arith

  replayed_as :
      (b b' : Bool) (d d' : Delivery.Outcome) (o : Catalog.Outcome) (s s' : Replay) (r : Record)
      → (b ≡ true → o.1 ≡ s.cat)
      → (b' ≡ true → o.1 ≡ s.cat)
      → (if b
          then delivery_outcome d s
          else if b'
          then delivery_outcome d' s
          else catalog_outcome o s r)
        ≡ ok s'
      → s'.cat ≡ o.1
  replayed_as true b' d d' o s s' r f g h = delivery_outcome-cat d s s' h ∙ sym (f refl)
  replayed_as false true d d' o s s' r f g h = delivery_outcome-cat d' s s' h ∙ sym (g refl)
  replayed_as false false d d' o s s' r f g h = catalog_outcome-cat o s s' r h

  -- A record that a replay takes without error changes its catalog as the record does.
  replay_record-cat :
      (s s' : Replay) (r : Record)
      → replay_record codec s r ≡ ok s'
      → s'.cat ≡ (process_record codec s.cat r).1
  unfolding replay_record
  replay_record-cat s s' r h =
      replayed_as (r.op_type == Record.op_enqueue) (r.op_type == Record.op_ack)
        (process_enqueue codec s.deli r) (process_ack codec s.deli r) (process_record codec s.cat r)
        s s' r (process_record-enqueue s.cat r) (process_record-ack s.cat r) h

  pub replay_records-cat :
      (s s' : Replay) (rs : List Record)
      → replay_records codec s rs ≡ ok s'
      → s'.cat ≡ logged s.cat rs
  unfolding replay_records logged
  replay_records-cat s s' [] h = cc
  replay_records-cat s s' (r ∷ rs) h =
      after (λ s1. replay_records-cat s1 s' rs) (replay_record codec s r) refl h
    where
      after :
          ((s1 : Replay) → replay_records codec s1 rs ≡ ok s' → s'.cat ≡ logged s1.cat rs)
          → (o : Result Replay) → replay_record codec s r ≡ o
          → elim o as (λ o. Result Replay) [ ok s1 ↦ replay_records codec s1 rs | err e ↦ err e ]
            ≡ ok s'
          → s'.cat ≡ logged (process_record codec s.cat r).1 rs
      after rec (ok s1) e h = rec s1 h ∙ ap (λ cat. logged cat rs) (replay_record-cat s s1 r e)
      after rec (err x) e h = cc
