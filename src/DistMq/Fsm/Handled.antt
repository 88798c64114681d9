-- ===== src/DistMq/Fsm/Handled.antt =====
-- The default branch of `Apply` is dead: decoding has validated the type.
use simon_mq.Base.{ℕ, ◌≡◌, ◌≢◌, refl, Bool, true, false, none, List, arith, if◌then◌else◌, ◌==◌}
use simon_mq.DistMq.Storage
use simon_mq.DistMq.Storage.{Storage}
use simon_mq.DistMq.Command
use simon_mq.DistMq.Command.{Command, Json, decode, validate}
use simon_mq.DistMq.Command.RoundTrip.{decode-valid}
use simon_mq.DistMq.Fsm.{Response, unhandled, error_of, message_of, dispatch, apply_decoded, apply}

module _ (t : ℕ) where
  abbrev IsHandled : Response × Storage → Type 0
  IsHandled x = x.0 ≢ unhandled t

  error_of-IsHandled : (r : Storage.Result (Unit {0}) × Storage) → IsHandled (error_of r)
  error_of-IsHandled (Storage.ok _, s) h = cc
  error_of-IsHandled (Storage.err e, s) h = cc

  message_of-IsHandled :
      (r : Storage.Result Storage.MessageInfo × Storage) → IsHandled (message_of r)
  message_of-IsHandled (Storage.ok m, s) h = cc
  message_of-IsHandled (Storage.err e, s) h = cc

  if_IsHandled :
      (b : Bool) (x y : Response × Storage)
      → IsHandled x
      → (b ≡ false → IsHandled y)
      → IsHandled (if b then x else y)
  if_IsHandled true x y p q = p
  if_IsHandled false x y p q = q refl

  known_type :
      (c : Command)
      → validate c ≡ none
      → (c.type == Command.create_queue) ≡ false
      → (c.type == Command.delete_queue) ≡ false
      → (c.type == Command.put_sub_policy) ≡ false
      → (c.type == Command.delete_sub_policy) ≡ false
      → (c.type == Command.ack) ≡ false
      → (c.type == Command.enqueue) ≡ false
      → ⊥
  unfolding validate
  known_type c v e1 e2 e3 e4 e5 e6 = ground arith

  dispatch-IsHandled : (s : Storage) (c : Command) → validate c ≡ none → IsHandled (dispatch s c)
  unfolding dispatch
  dispatch-IsHandled s c v =
      if_IsHandled (c.type == Command.create_queue) _ _ (error_of-IsHandled _) λ e1.
        if_IsHandled (c.type == Command.delete_queue) _ _ (error_of-IsHandled _) λ e2.
          if_IsHandled (c.type == Command.put_sub_policy) _ _ (error_of-IsHandled _) λ e3.
            if_IsHandled (c.type == Command.delete_sub_policy) _ _ (error_of-IsHandled _) λ e4.
              if_IsHandled (c.type == Command.ack) _ _ (error_of-IsHandled _) λ e5.
                if_IsHandled (c.type == Command.enqueue) _ _ (message_of-IsHandled _)
                  λ e6. absurd (known_type c v e1 e2 e3 e4 e5 e6)

  decoded-IsHandled :
      (s : Storage) (r : Command.Result Command)
      → ((c : Command) → r ≡ Command.ok c → validate c ≡ none)
      → IsHandled (apply_decoded s r)
  decoded-IsHandled s (Command.err e) v h = cc
  decoded-IsHandled s (Command.ok c) v h = dispatch-IsHandled s c (v c refl) h

-- Whatever bytes the log holds, `Apply` never answers that a command type is unhandled: an entry
-- that decodes has one of the six types.
pub apply_handled :
    (json : Json) (s : Storage) (entry : List ℕ) (t : ℕ) → (apply json s entry).0 ≢ unhandled t
unfolding apply
apply_handled json s entry t = decoded-IsHandled t s (decode json entry) (decode-valid json entry)
