-- ===== src/Durable/Model.antt =====
-- durable-mq/model: the payloads of log records, in Go's encoding/json.
use simon_mq.Base.{◌≡◌, ℕ, Option, some, List, GoString}
use simon_mq.Dict.{Dict}
use simon_mq.Model.{SubPolicy}

pub record Enqueue : Type 0 where
  pub msg_id : GoString
  pub msg_content : GoString
  pub sub_list : Dict SubPolicy

pub record Ack : Type 0 where
  pub msg_id : GoString
  pub sub_name : GoString

-- encoding/json for the payloads. `IsText` says of a string that it is valid UTF-8, which is what
-- the encoder keeps.
pub record Codec : Type 1 where
  pub encode_sub_policy : SubPolicy → List ℕ
  pub decode_sub_policy : List ℕ → Option SubPolicy
  pub encode_enqueue : Enqueue → List ℕ
  pub decode_enqueue : List ℕ → Option Enqueue
  pub encode_ack : Ack → List ℕ
  pub decode_ack : List ℕ → Option Ack
  pub IsText : GoString → Type 0
  pub decode-encode_sub_policy :
      (p : SubPolicy)
      → IsText p.sub_name
      → IsText p.sub_url
      → decode_sub_policy (encode_sub_policy p) ≡ some p
  pub decode-encode_ack :
      (a : Ack) → IsText a.msg_id → IsText a.sub_name → decode_ack (encode_ack a) ≡ some a
