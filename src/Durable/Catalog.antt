-- ===== src/Durable/Catalog.antt =====
-- durable-mq/catalog/catalog.go: the queues and their subscribers. The mutex is not modelled: every
-- method holds it throughout.
use simon_mq.Base.{ℕ, ◌==◌, Bool, Option, none, some, List, [], ◌∷◌, GoString, if◌then◌else◌}
use simon_mq.Dict.{Dict, get, has, put, delete}
use simon_mq.Model.{SubPolicy}
use simon_mq.Durable.Model.{Codec}
use simon_mq.Durable.Record
use simon_mq.Durable.Record.{Record}

pub record QueueInfo : Type 0 where
  pub name : GoString
  pub sub_policies : Dict SubPolicy

abbrev pub Catalog : Type 0
Catalog = Dict QueueInfo

abbrev pub new_catalog : Catalog
new_catalog = []

abbrev pub new_queue_info : GoString → QueueInfo
new_queue_info name = record { name = name; sub_policies = [] }

pub data CatalogError : Type 0 where
  bad_payload queue_not_found : CatalogError
  invalid_op : ℕ → CatalogError

-- The error, if any, and the catalog after the call.
abbrev pub Outcome : Type 0
Outcome = Option CatalogError × Catalog

-- An existing queue is replaced.
unfoldable pub create_queue : Catalog → GoString → Catalog
create_queue c name = put c name (new_queue_info name)

unfoldable pub remove_queue : Catalog → GoString → Catalog
remove_queue c name = delete c name

abbrev pub change_subs :
    Option QueueInfo → Catalog → GoString → (Dict SubPolicy → Dict SubPolicy) → Outcome
change_subs none c name f = (some queue_not_found, c)
change_subs (some q) c name f = (none, put c name (record q { sub_policies = f q.sub_policies }))

abbrev pub put_policy : Option SubPolicy → Catalog → GoString → Outcome
put_policy none c name = (some bad_payload, c)
put_policy (some p) c name = change_subs (get c name) c name (λ subs. put subs p.sub_name p)

abbrev pub delete_policy : Option SubPolicy → Catalog → GoString → Outcome
delete_policy none c name = (some bad_payload, c)
delete_policy (some p) c name = change_subs (get c name) c name (λ subs. delete subs p.sub_name)

module _ (codec : Codec) where
  unfoldable pub update_sub_policy : Catalog → GoString → List ℕ → Outcome
  update_sub_policy c name payload = put_policy (codec.decode_sub_policy payload) c name

  unfoldable pub remove_sub_policy : Catalog → GoString → List ℕ → Outcome
  remove_sub_policy c name payload = delete_policy (codec.decode_sub_policy payload) c name

  unfoldable pub process_record : Catalog → Record → Outcome
  process_record c r =
      if r.op_type == Record.op_create_queue
      then (none, create_queue c r.queue_name)
      else if r.op_type == Record.op_delete_queue
      then (none, remove_queue c r.queue_name)
      else if r.op_type == Record.op_update_sub_policy
      then update_sub_policy c r.queue_name r.payload
      else if r.op_type == Record.op_delete_sub_policy
      then remove_sub_policy c r.queue_name r.payload
      else if r.op_type == Record.op_begin_checkpoint
      then (none, c)
      else if r.op_type == Record.op_end_checkpoint
      then (none, c)
      else (some (invalid_op r.op_type), c)

unfoldable pub queue_exists : Catalog → GoString → Bool
queue_exists c name = has c name

abbrev copy_policies : Dict SubPolicy → Dict SubPolicy → Dict SubPolicy
copy_policies out [] = out
copy_policies out ((k, p) ∷ m) = copy_policies (put out k p) m

abbrev sub_list_of : Option QueueInfo → Option (Dict SubPolicy)
sub_list_of none = none
sub_list_of (some q) = some (copy_policies [] q.sub_policies)

unfoldable pub fetch_queue_sub_list : Catalog → GoString → Option (Dict SubPolicy)
fetch_queue_sub_list c name = sub_list_of (get c name)

unfoldable pub return_queue_names : Catalog → List GoString
return_queue_names [] = []
return_queue_names ((k, q) ∷ c) = k ∷ return_queue_names c

unfoldable pub all_queue_info : Catalog → List QueueInfo
all_queue_info [] = []
all_queue_info ((k, q) ∷ c) =
    record { name = q.name; sub_policies = copy_policies [] q.sub_policies } ∷ all_queue_info c
