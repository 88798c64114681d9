-- ===== src/DistMq/Command/RoundTrip.antt =====
-- What `Encode` accepts `Decode` gives back.
use simon_mq.Base.{
  ℕ, ◌≡◌, refl, ◌∙◌, ap, subst, Option, none, some, List, [], ◌∷◌, arith, GoString, Option-cases,
  inl, inr, ◌≢◌,
}
use simon_mq.Dict.{Dict}
use simon_mq.Dict.Keys.{IsMap}
use simon_mq.Model.{SubPolicy}
use simon_mq.DistMq.Command.{
  Command, ok, Json, encode, decode, decode_json, validate, omit_empty, normalise, new_create_queue,
  new_delete_queue, new_put_sub_policy, new_delete_sub_policy, new_enqueue, new_ack,
}

-- A command that one of the constructors of the package builds.
pub data IsBuilt : Command → Type 0 where
  create : (q : GoString) → IsBuilt (new_create_queue q)
  remove : (q : GoString) → IsBuilt (new_delete_queue q)
  subscribe : (q : GoString) (p : SubPolicy) → IsBuilt (new_put_sub_policy q p)
  unsubscribe : (q x : GoString) → IsBuilt (new_delete_sub_policy q x)
  send : (q m payload : GoString) (subs : Dict SubPolicy) → IsBuilt (new_enqueue q m payload subs)
  acked : (q m : GoString) (names : List GoString) → IsBuilt (new_ack q m names)

-- Validation does not look at the fields that the encoding changes.
validate-omit_empty :
    (c : Command) → validate (record c { sub_names = omit_empty c.sub_names }) ≡ validate c
unfolding validate
validate-omit_empty c = refl

restored :
    (c : Command) → IsBuilt c → normalise (record c { sub_names = omit_empty c.sub_names }) ≡ c
unfolding new_create_queue new_delete_queue new_put_sub_policy new_delete_sub_policy new_enqueue
    new_ack
restored c (create q) = refl
restored c (remove q) = refl
restored c (subscribe q p) = refl
restored c (unsubscribe q x) = refl
restored c (send q m payload subs) = refl
restored c (acked q m []) = refl
restored c (acked q m (x ∷ xs)) = refl

module _ (json : Json) where
  decode-cons : (d : List ℕ) → d ≢ [] → decode json d ≡ decode_json (json.unmarshal d)
  unfolding decode
  decode-cons [] h = absurd (h refl)
  decode-cons (b ∷ bs) h = refl

  -- Every node decodes the command that the leader built: whatever command a constructor of the
  -- package builds of valid UTF-8, if `Encode` accepts it then `Decode` of the bytes gives back that
  -- same command, with an empty list of subscriber names kept apart from nil.
  pub decode-encode_command :
      (c : Command) (d : List ℕ)
      → IsBuilt c
      → json.IsText c
      → encode json c ≡ ok d
      → decode json d ≡ ok c
  unfolding encode
  decode-encode_command c d built text e = elim (Option-cases (validate c)) [
    | inl valid ↦ rw (← same valid) (
        decode-cons (json.marshal c) (json.marshal-ne-nil c)
        ∙ rw (json.unmarshal-marshal c text, validate-omit_empty c, valid)
            (ap ok (restored c built)))
    | inr (why, bad) ↦ absurd (ground arith)
  ]
    where
      same : validate c ≡ none → json.marshal c ≡ d
      same valid = ground arith

  normalise-valid : (c : Command) → validate (normalise c) ≡ validate c
  unfolding validate
  normalise-valid c = ground arith

  decode_json-valid :
      (o : Option Command) (c : Command)
      → decode_json o ≡ ok c
      → (r : Command) × (o ≡ some r) × (validate r ≡ none) × (normalise r ≡ c)
  decode_json-valid none c e = absurd (cc)
  decode_json-valid (some r) c e = elim (Option-cases (validate r)) [
    | inl valid ↦ (r, refl, valid, ground arith)
    | inr (why, bad) ↦ absurd (ground arith)
  ]

  decode_cases :
      (d : List ℕ) (c : Command)
      → decode json d ≡ ok c
      → (r : Command) × (json.unmarshal d ≡ some r) × (validate r ≡ none) × (normalise r ≡ c)
  unfolding decode
  decode_cases [] c e = absurd (cc)
  decode_cases (b ∷ bs) c e = decode_json-valid (json.unmarshal (b ∷ bs)) c e

  -- A decoded command is structurally usable, so `Encode` would accept it.
  pub decode-valid : (d : List ℕ) (c : Command) → decode json d ≡ ok c → validate c ≡ none
  decode-valid d c e =
      let (r, _, valid, same) = decode_cases d c e in rw (← same) (normalise-valid r ∙ valid)

  sub_list-normalise : (r : Command) → (normalise r).sub_list ≡ r.sub_list
  sub_list-normalise r = ground arith

  pub decode-IsMap : (d : List ℕ) (c : Command) → decode json d ≡ ok c → IsMap c.sub_list
  decode-IsMap d c e =
      let (r, read, _, same) = decode_cases d c e in
      subst (λ (x : Command). IsMap x.sub_list) same
        (rw sub_list-normalise (json.unmarshal-IsMap d r read))
