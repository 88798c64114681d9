-- ===== src/DistMq/Command.antt =====
-- dist-mq/command/command.go: the entries of the replicated log. The JSON encoding is Go's
-- encoding/json, a parameter with the laws that its documentation states for this structure.
pub mod RoundTrip
use simon_mq.Base.{
  ℕ, ◌≡◌, ◌≢◌, Bool, true, false, ◌||◌, Option, none, some, List, [], ◌∷◌, GoString, ◌==◌,
  if◌then◌else◌,
}
use simon_mq.Dict.{Dict}
use simon_mq.Dict.Keys.{IsMap}
use simon_mq.Model.{ℤ, pos, SubPolicy}
use simon_mq.DistMq.Storage.{copy_subs}

-- `Type` is a uint8 that counts from 1.
abbrev pub create_queue : ℕ
create_queue = 1

abbrev pub delete_queue : ℕ
delete_queue = 2

abbrev pub put_sub_policy : ℕ
put_sub_policy = 3

abbrev pub delete_sub_policy : ℕ
delete_sub_policy = 4

abbrev pub enqueue : ℕ
enqueue = 5

abbrev pub ack : ℕ
ack = 6

-- `sub_names` is a slice, `none` where it is nil.
pub record Command : Type 0 where
  pub type : ℕ
  pub queue_name : GoString
  pub msg_id : GoString
  pub payload : GoString
  pub sub_name : GoString
  pub policy : SubPolicy
  pub sub_names : Option (List GoString)
  pub sub_list : Dict SubPolicy

abbrev pub zero_policy : SubPolicy
zero_policy = record { sub_name = []; sub_url = []; number_of_retries = pos 0 }

abbrev of_type : ℕ → GoString → Command
of_type t queue_name = record {
  type = t;
  queue_name = queue_name;
  msg_id = [];
  payload = [];
  sub_name = [];
  policy = zero_policy;
  sub_names = none;
  sub_list = [];
}

unfoldable pub new_create_queue : GoString → Command
new_create_queue queue_name = of_type create_queue queue_name

unfoldable pub new_delete_queue : GoString → Command
new_delete_queue queue_name = of_type delete_queue queue_name

unfoldable pub new_put_sub_policy : GoString → SubPolicy → Command
new_put_sub_policy queue_name policy = record (of_type put_sub_policy queue_name) {
  policy = policy;
}

unfoldable pub new_delete_sub_policy : GoString → GoString → Command
new_delete_sub_policy queue_name sub_name = record (of_type delete_sub_policy queue_name) {
  sub_name = sub_name;
}

unfoldable pub new_enqueue : GoString → GoString → GoString → Dict SubPolicy → Command
new_enqueue queue_name msg_id payload sub_list = record (of_type enqueue queue_name) {
  msg_id = msg_id;
  payload = payload;
  sub_list = copy_subs sub_list;
}

unfoldable pub new_ack : GoString → GoString → List GoString → Command
new_ack queue_name msg_id sub_names = record (of_type ack queue_name) {
  msg_id = msg_id;
  sub_names = some sub_names;
}

pub data CommandError : Type 0 where
  empty_entry bad_json empty_queue_name empty_subscriber_name empty_message_id : CommandError
  unknown_type : ℕ → CommandError

pub data Result {ℓ} (A : Type ℓ) : Type ℓ where
  ok : A → Result A
  err : CommandError → Result A

abbrev is_empty : GoString → Bool
is_empty [] = true
is_empty (c ∷ s) = false

abbrev require : GoString → CommandError → Option CommandError
require [] e = some e
require (c ∷ s) e = none

-- `none` where the command is structurally usable.
unfoldable pub validate : Command → Option CommandError
validate c =
    if is_empty c.queue_name
    then some empty_queue_name
    else if c.type == create_queue || c.type == delete_queue
    then none
    else if c.type == put_sub_policy
    then require c.policy.sub_name empty_subscriber_name
    else if c.type == delete_sub_policy
    then require c.sub_name empty_subscriber_name
    else if c.type == enqueue || c.type == ack
    then require c.msg_id empty_message_id
    else some (unknown_type c.type)

-- A field marked omitempty is left out where it is empty, and decodes to nil.
abbrev pub omit_empty : Option (List GoString) → Option (List GoString)
omit_empty (some []) = none
omit_empty names = names

-- encoding/json for `Command`. `IsText` says that the strings are valid UTF-8, which is what the
-- encoder keeps. A decoded map has no key twice.
pub record Json : Type 1 where
  pub marshal : Command → List ℕ
  pub unmarshal : List ℕ → Option Command
  pub IsText : Command → Type 0
  pub marshal-ne-nil : (c : Command) → marshal c ≢ []
  pub unmarshal-marshal :
      (c : Command)
      → IsText c
      → unmarshal (marshal c) ≡ some (record c { sub_names = omit_empty c.sub_names })
  pub unmarshal-IsMap : (d : List ℕ) (c : Command) → unmarshal d ≡ some c → IsMap c.sub_list

abbrev if_valid {ℓ} : {A : Type ℓ} → Option CommandError → A → Result A
if_valid none a = ok a
if_valid (some e) a = err e

-- An Ack with no names decodes to an empty slice.
abbrev non_nil : Option (List GoString) → Option (List GoString)
non_nil none = some []
non_nil (some names) = some names

abbrev normalise : Command → Command
normalise c = if c.type == ack then record c { sub_names = non_nil c.sub_names } else c

abbrev decode_json : Option Command → Result Command
decode_json none = err bad_json
decode_json (some c) = if_valid (validate c) (normalise c)

module _ (json : Json) where
  unfoldable pub encode : Command → Result (List ℕ)
  encode c = if_valid (validate c) (json.marshal c)

  abbrev decode_bytes : List ℕ → Result Command
  decode_bytes [] = err empty_entry
  decode_bytes (b ∷ bs) = decode_json (json.unmarshal (b ∷ bs))

  unfoldable pub decode : List ℕ → Result Command
  decode data_bytes = decode_bytes data_bytes
