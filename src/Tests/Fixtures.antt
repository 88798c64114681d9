-- ===== src/Tests/Fixtures.antt =====
-- The data that the tests share.
use simon_mq.Base.{
  ℕ, zero, ◌≡◌, refl, ◌∙◌, sym, ap, subst, ◌≢◌, Option, none, some, List, [], ◌∷◌, ◌++◌, GoString,
  codes, str_eq, length, take, drop, take-append, drop-append,
}
use simon_mq.Dict.{Dict, get}
use simon_mq.Dict.Keys.{IsMap}
use simon_mq.Model.{ℤ, pos, negsuc, SubPolicy}
use simon_mq.Durable.Model.{Codec, Enqueue, Ack}
use simon_mq.DistMq.Command.{Command, Json, omit_empty, zero_policy}

abbrev pub orders : GoString
orders = codes "orders"

abbrev pub alice : GoString
alice = codes "alice"

abbrev pub bob : GoString
bob = codes "bob"

abbrev pub policy : GoString → SubPolicy
policy name = record { sub_name = name; sub_url = codes "http://sub"; number_of_retries = pos 3 }

abbrev pub two_subs : Dict SubPolicy
two_subs = (alice, policy alice) ∷ (bob, policy bob) ∷ []

pub two_subs-IsMap : IsMap two_subs
unfolding get str_eq
two_subs-IsMap = (refl, (refl, tt))

-- A codec that puts the lengths in front.
abbrev sign : ℤ → ℕ
sign (pos n) = 0
sign (negsuc n) = 1

abbrev magnitude : ℤ → ℕ
magnitude (pos n) = n
magnitude (negsuc n) = n

abbrev decode_int : ℕ → ℕ → ℤ
decode_int zero n = pos n
decode_int _ n = negsuc n

abbrev encode_policy : SubPolicy → List ℕ
encode_policy p =
    length p.sub_name ∷ sign p.number_of_retries ∷ magnitude p.number_of_retries ∷ p.sub_name
    ++ p.sub_url

abbrev decode_policy : List ℕ → Option SubPolicy
decode_policy (k ∷ s ∷ n ∷ bs) =
    some (record { sub_name = take k bs; sub_url = drop k bs; number_of_retries = decode_int s n })
decode_policy _ = none

abbrev encode_pair : GoString → GoString → List ℕ
encode_pair a b = length a ∷ a ++ b

abbrev decode_ack : List ℕ → Option Ack
decode_ack [] = none
decode_ack (k ∷ bs) = some (record { msg_id = take k bs; sub_name = drop k bs })

abbrev decode_enqueue : List ℕ → Option Enqueue
decode_enqueue [] = none
decode_enqueue (k ∷ bs) =
    some (record { msg_id = take k bs; msg_content = drop k bs; sub_list = two_subs })

int_law : (n : ℤ) → decode_int (sign n) (magnitude n) ≡ n
int_law (pos n) = refl
int_law (negsuc n) = refl

pub policy_law : (p : SubPolicy) → decode_policy (encode_policy p) ≡ some p
policy_law p =
    rw
      (
        take-append (length p.sub_name) p.sub_name p.sub_url refl,
        drop-append (length p.sub_name) p.sub_name p.sub_url refl,
        int_law p.number_of_retries,
      )
      refl

pub ack_law : (a : Ack) → decode_ack (encode_pair a.msg_id a.sub_name) ≡ some a
ack_law a =
    rw
      (
        take-append (length a.msg_id) a.msg_id a.sub_name refl,
        drop-append (length a.msg_id) a.msg_id a.sub_name refl,
      )
      refl

abbrev pub codec : Codec
codec = record {
  encode_sub_policy = encode_policy;
  decode_sub_policy = decode_policy;
  encode_enqueue = λ e. encode_pair e.msg_id e.msg_content;
  decode_enqueue = decode_enqueue;
  encode_ack = λ a. encode_pair a.msg_id a.sub_name;
  decode_ack = decode_ack;
  IsText = λ s. Unit;
  decode-encode_sub_policy = λ p t u. policy_law p;
  decode-encode_ack = λ a t u. ack_law a;
}

-- An encoding of the commands that use no policy, no list and no subscriber name.
abbrev plain : ℕ → GoString → GoString → GoString → Command
plain t q m payload = record {
  type = t;
  queue_name = q;
  msg_id = m;
  payload = payload;
  sub_name = [];
  policy = zero_policy;
  sub_names = none;
  sub_list = [];
}

abbrev IsPlain : Command → Type 0
IsPlain c = c ≡ plain c.type c.queue_name c.msg_id c.payload

abbrev marshal : Command → List ℕ
marshal c = c.type ∷ length c.queue_name ∷ length c.msg_id ∷ c.queue_name ++ (c.msg_id ++ c.payload)

abbrev unmarshal : List ℕ → Option Command
unmarshal (t ∷ n ∷ m ∷ bs) = some (plain t (take n bs) (take m (drop n bs)) (drop m (drop n bs)))
unmarshal _ = none

pub plain_law :
    (c : Command)
    → IsPlain c
    → unmarshal (marshal c) ≡ some (record c { sub_names = omit_empty c.sub_names })
plain_law c h =
    rw
      (
        take-append (length c.queue_name) c.queue_name (c.msg_id ++ c.payload) refl,
        drop-append (length c.queue_name) c.queue_name (c.msg_id ++ c.payload) refl,
        take-append (length c.msg_id) c.msg_id c.payload refl,
        drop-append (length c.msg_id) c.msg_id c.payload refl,
      )
      (ap some
        (sym h ∙ subst (λ x. x ≡ record x { sub_names = omit_empty x.sub_names }) (sym h) refl))

pub marshal-ne-nil : (c : Command) → marshal c ≢ []
marshal-ne-nil c h = cc

abbrev sub_list_of : Option Command → Dict SubPolicy
sub_list_of none = []
sub_list_of (some c) = c.sub_list

pub plain-sub_list : (d : List ℕ) → sub_list_of (unmarshal d) ≡ []
plain-sub_list [] = refl
plain-sub_list (t ∷ []) = refl
plain-sub_list (t ∷ n ∷ []) = refl
plain-sub_list (t ∷ n ∷ m ∷ bs) = refl

abbrev pub json : Json
json = record {
  marshal = marshal;
  unmarshal = unmarshal;
  IsText = IsPlain;
  marshal-ne-nil = marshal-ne-nil;
  unmarshal-marshal = plain_law;
  unmarshal-IsMap = λ d c e. subst IsMap (sym (plain-sub_list d) ∙ ap sub_list_of e) tt;
}
