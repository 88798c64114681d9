-- ===== src/Tests/Entries.antt =====
-- The commands of dist-mq and the replay of the replicated log.
use simon_mq.Base.{some, GoString, ℕ, ◌≡◌, ◌≢◌, refl, arith, List, [], ◌∷◌, ◌++◌, codes}
use simon_mq.DistMq.Command.{encode, decode, validate, new_create_queue, ok}
use simon_mq.DistMq.Command.RoundTrip.{create, decode-encode_command}
use simon_mq.DistMq.Storage.{new_storage}
use simon_mq.DistMq.Storage.Valid.{IsValid}
use simon_mq.DistMq.Fsm.{apply, apply_all, unhandled}
use simon_mq.DistMq.Fsm.Replay.{apply_all-IsValid}
use simon_mq.DistMq.Fsm.Handled.{apply_handled}
use simon_mq.Model.{SubPolicy}
use simon_mq.DistMq.Storage.{MessageState}
use simon_mq.DistMq.Storage.Owed.{owed}
use simon_mq.DistMq.Storage.Delivery.{message_at}
use simon_mq.DistMq.Fsm.Replay.{stored_iff_owed}
use simon_mq.Tests.Fixtures.{orders, json}

abbrev create_orders : List ℕ
create_orders = 1 ∷ 6 ∷ 0 ∷ orders

decode-encode_command_example : decode json create_orders ≡ ok (new_create_queue orders)
unfolding new_create_queue encode validate
decode-encode_command_example =
    decode-encode_command json (new_create_queue orders) create_orders (create orders) refl refl

-- A queue, an entry that is no command, and a message without subscribers.
abbrev entries : List (List ℕ)
entries = create_orders ∷ (7 ∷ []) ∷ (5 ∷ 6 ∷ 2 ∷ orders ++ codes "m1one") ∷ []

apply_all-IsValid_example : IsValid (apply_all json new_storage entries)
apply_all-IsValid_example = apply_all-IsValid json entries (omega arith)

stored_iff_owed_example :
    ((msg : MessageState)
      → message_at (apply_all json new_storage entries) orders (codes "m1") ≡ some msg
      → (sub : GoString) × (p : SubPolicy) × (owed
            (apply_all json new_storage entries)
            orders
            (codes "m1")
            sub
          ≡ some p))
    × ((sub : GoString) (p : SubPolicy)
        → owed (apply_all json new_storage entries) orders (codes "m1") sub ≡ some p
        → (msg : MessageState) × (message_at
              (apply_all json new_storage entries)
              orders
              (codes "m1")
            ≡ some msg))
stored_iff_owed_example = stored_iff_owed json entries orders (codes "m1") (omega arith)

apply_handled_example : (apply json new_storage (9 ∷ 6 ∷ 0 ∷ orders)).0 ≢ unhandled 9
apply_handled_example = apply_handled json new_storage (9 ∷ 6 ∷ 0 ∷ orders) 9
