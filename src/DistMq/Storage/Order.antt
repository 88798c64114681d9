-- ===== src/DistMq/Storage/Order.antt =====
-- `PendingMessages` lists a queue in the order in which its messages were enqueued.
use simon_mq.Base.{◌≡◌, Bool, false, List, [], ◌∷◌}
use simon_mq.Dict.{Dict}
use simon_mq.DistMq.Storage.{Storage}

-- The new message is no smaller than any other.
abbrev NoneAfter {ℓ} : {A : Type ℓ} → (A → A → Bool) → A → List A → Type 0
NoneAfter less x [] = Unit
NoneAfter less x (y ∷ ys) = (less x y ≡ false) × NoneAfter less x ys
