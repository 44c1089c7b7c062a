-- ===== src/Ovndb/LogicalSwitch.antt =====
-- pkg/ovndb/logical_switch.go: LogicalSwitchOps over a client of the Logical_Switch table.
use zstack_ovn_kubernetes.Base.{
  Bool, List, [], ◌∷◌, ◌++◌, Text, codes, Option, none, some, if◌then◌else◌,
}
use zstack_ovn_kubernetes.Base.Dict.{Dict}
use zstack_ovn_kubernetes.Ovndb.Errors.{Result, ok, err, Step, done, ◌>>=◌, is_not_found}
use zstack_ovn_kubernetes.Ovndb.Transact.{transact_and_check, build_named_uuid}
use zstack_ovn_kubernetes.Ovndb.Table.{
  TableClient, entries, merge, require_name, discard, online, get_row, get_row_by_uuid, list_rows,
  list_rows_with_predicate, send, send_all, first_result,
}

-- The columns that the program reads and writes.
pub record LogicalSwitch : Type 0 where
  pub uuid : Text
  pub name : Text
  pub ports : List Text
  pub acls : List Text
  pub load_balancer : List Text
  pub other_config : Option (Dict Text)
  pub external_ids : Option (Dict Text)

pub data SwitchField : Type 0 where
  other_config_field : SwitchField
  external_ids_field : SwitchField

-- MutateOperationInsert and MutateOperationDelete on a column of UUIDs.
pub data SwitchChange : Type 0 where
  insert_ports : List Text → SwitchChange
  delete_ports : List Text → SwitchChange
  insert_acls : List Text → SwitchChange
  delete_acls : List Text → SwitchChange
  insert_load_balancers : List Text → SwitchChange
  delete_load_balancers : List Text → SwitchChange

abbrev pub SwitchClient : Type 0 → Type 0 → Type 0
SwitchClient S Op = TableClient S Op LogicalSwitch SwitchField SwitchChange

abbrev pub new_logical_switch : Text → Option (Dict Text) → Option (Dict Text) → LogicalSwitch
new_logical_switch name config ids = record {
  uuid = build_named_uuid name;
  name = name;
  ports = [];
  acls = [];
  load_balancer = [];
  other_config = config;
  external_ids = ids;
}

abbrev pub switch_field_if : Option (Dict Text) → SwitchField → List SwitchField
switch_field_if none f = []
switch_field_if (some m) f = f ∷ []

unfoldable pub get_logical_switch_mutable_fields : LogicalSwitch → List SwitchField
get_logical_switch_mutable_fields ls =
    switch_field_if ls.other_config other_config_field
    ++ switch_field_if ls.external_ids external_ids_field

module _ {S Op : Type 0} (nb : SwitchClient S Op) where
  abbrev pub created_switch : LogicalSwitch → S × Result (List Text) → S × Result LogicalSwitch
  created_switch ls (t, ok us) = (t, ok (record ls { uuid = first_result nb ls.uuid us }))
  created_switch ls (t, err e) = (t, err e)

  unfoldable pub create_logical_switch :
      Text → Option (Dict Text) → Option (Dict Text) → Step S LogicalSwitch
  unfolding transact_and_check
  create_logical_switch name config ids =
      let ls = new_logical_switch name config ids in
      require_name (codes "name") name (
        online nb
          (λ s. created_switch ls (send nb (codes "CreateLogicalSwitch") name (nb.create ls) s)))

  unfoldable pub get_logical_switch : Text → Step S LogicalSwitch
  get_logical_switch name = get_row nb (codes "LogicalSwitch") (codes "GetLogicalSwitch") name

  unfoldable pub get_logical_switch_by_uuid : Text → Step S LogicalSwitch
  get_logical_switch_by_uuid uuid =
      get_row_by_uuid nb (codes "LogicalSwitch") (codes "GetLogicalSwitchByUUID") uuid

  unfoldable pub list_logical_switches : Step S (List LogicalSwitch)
  list_logical_switches = list_rows nb (codes "ListLogicalSwitches")

  unfoldable pub list_logical_switches_with_predicate :
      (LogicalSwitch → Bool) → Step S (List LogicalSwitch)
  list_logical_switches_with_predicate p =
      list_rows_with_predicate nb (codes "ListLogicalSwitchesWithPredicate") p

  abbrev pub switch_fields : LogicalSwitch → List SwitchField → List SwitchField
  switch_fields ls [] = get_logical_switch_mutable_fields ls
  switch_fields ls (f ∷ fields) = f ∷ fields

  -- The argument is not nil; the program calls it with a row.
  unfoldable pub update_logical_switch : LogicalSwitch → List SwitchField → Step S Unit
  unfolding transact_and_check get_logical_switch_mutable_fields
  update_logical_switch ls fields = require_name (codes "ls") ls.name (
      online nb (
        send_all nb (codes "UpdateLogicalSwitch") ls.name (nb.update ls (switch_fields ls fields))))

  unfoldable pub delete_logical_switch : Text → Step S Unit
  unfolding transact_and_check
  delete_logical_switch name =
      require_name (codes "name") name
        (online nb (send_all nb (codes "DeleteLogicalSwitch") name (nb.delete name)))

  unfoldable pub delete_logical_switch_ops : Text → Step S (Option (List Op))
  delete_logical_switch_ops name =
      require_name (codes "name") name (online nb (done (nb.delete name)))

  abbrev pub create_or_update_switch : LogicalSwitch → S × Result LogicalSwitch → S × Result Unit
  create_or_update_switch ls (t, ok existing) =
      update_logical_switch (record ls { uuid = existing.uuid }) [] t
  create_or_update_switch ls (t, err e) =
      if is_not_found e
      then discard (create_logical_switch ls.name ls.other_config ls.external_ids t)
      else (t, err e)

  unfoldable pub create_or_update_logical_switch : LogicalSwitch → Step S Unit
  unfolding get_logical_switch update_logical_switch create_logical_switch
  create_or_update_logical_switch ls =
      require_name (codes "ls") ls.name
        (online nb (λ s. create_or_update_switch ls (get_logical_switch ls.name s)))

  unfoldable pub set_other_config : Text → Dict Text → Step S Unit
  unfolding get_logical_switch update_logical_switch merge
  set_other_config name config = get_logical_switch name >>= λ ls.
      update_logical_switch
        (record ls { other_config = some (merge config (entries ls.other_config)) })
        (other_config_field ∷ [])

  unfoldable pub set_external_ids : Text → Dict Text → Step S Unit
  unfolding get_logical_switch update_logical_switch merge
  set_external_ids name ids = get_logical_switch name >>= λ ls.
      update_logical_switch
        (record ls { external_ids = some (merge ids (entries ls.external_ids)) })
        (external_ids_field ∷ [])

  unfoldable pub add_acls_to_logical_switch : Text → List Text → Step S Unit
  unfolding transact_and_check
  add_acls_to_logical_switch name uuids =
      online nb
        (send_all nb (codes "AddACLsToLogicalSwitch") name (nb.mutate name (insert_acls uuids)))

  unfoldable pub remove_acls_from_logical_switch : Text → List Text → Step S Unit
  unfolding transact_and_check
  remove_acls_from_logical_switch name uuids =
      online nb (
        send_all nb (codes "RemoveACLsFromLogicalSwitch") name (nb.mutate name (delete_acls uuids)))

  unfoldable pub add_load_balancers_to_logical_switch : Text → List Text → Step S Unit
  unfolding transact_and_check
  add_load_balancers_to_logical_switch name uuids = online nb (
      send_all nb (codes "AddLoadBalancersToLogicalSwitch") name
        (nb.mutate name (insert_load_balancers uuids)))

  unfoldable pub remove_load_balancers_from_logical_switch : Text → List Text → Step S Unit
  unfolding transact_and_check
  remove_load_balancers_from_logical_switch name uuids = online nb (
      send_all nb (codes "RemoveLoadBalancersFromLogicalSwitch") name
        (nb.mutate name (delete_load_balancers uuids)))
