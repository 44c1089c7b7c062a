-- ===== src/Ovn/Subnets/Switch.antt =====
-- pkg/ovn/subnet_controller.go: the logical switch of a subnet: verifyExternalLogicalSwitch,
-- ensureLogicalSwitch and the part of handleDeletion that deletes it.
use zstack_ovn_kubernetes.Base.{
  Bool, not, ◌||◌, List, [], ◌∷◌, Text, codes, join, some, if◌then◌else◌, text_eq,
}
use zstack_ovn_kubernetes.Base.Dict.{Dict}
use zstack_ovn_kubernetes.Ovndb.Errors.{
  Result, ok, err, Step, is_not_found, wrapped, wrap_result, operation_failed,
}
use zstack_ovn_kubernetes.Ovndb.Table.{entries, discard}
use zstack_ovn_kubernetes.Ovndb.LogicalSwitch.{
  LogicalSwitch, SwitchClient, get_logical_switch, create_logical_switch, update_logical_switch,
  delete_logical_switch,
}
use zstack_ovn_kubernetes.Ovndb.Zstack.Guarded.{
  validate_external_logical_switch, get_logical_switch_info, safe_create_logical_switch,
  safe_delete_logical_switch,
}
use zstack_ovn_kubernetes.Config.{Config}
use zstack_ovn_kubernetes.Config.External
use zstack_ovn_kubernetes.Ovn.Subnets.{
  Subnet, maps_equal, text_at, get_logical_switch_name, is_external_mode,
}

-- Without exclusions the switch has no exclude_ips.
abbrev pub switch_config : Text → List Text → Dict Text
switch_config cidr [] = (codes "subnet", cidr) ∷ []
switch_config cidr (ip ∷ ips) =
    (codes "subnet", cidr) ∷ (codes "exclude_ips", join (ip ∷ ips) (codes " ")) ∷ []

abbrev pub switch_ids : Text → Dict Text
switch_ids name =
    (codes "zstack.io/subnet", name)
    ∷ (codes "zstack.io/managed-by", codes "zstack-ovn-kubernetes")
    ∷ []

-- ExternalIDs[ExternalIDManagedBy] == ExternalIDManagedByValue.
abbrev pub marked_ours : LogicalSwitch → Bool
marked_ours ls =
    text_eq (text_at (entries ls.external_ids) (codes "zstack.io/managed-by"))
      (codes "zstack-ovn-kubernetes")

abbrev pub changed_switch : Dict Text → Dict Text → LogicalSwitch → LogicalSwitch
changed_switch config ids ls = record ls {
  other_config =
      if maps_equal (entries ls.other_config) config then ls.other_config else some config;
  external_ids = if maps_equal (entries ls.external_ids) ids then ls.external_ids else some ids;
}

abbrev pub needs_update : Dict Text → Dict Text → LogicalSwitch → Bool
needs_update config ids ls =
    not (maps_equal (entries ls.other_config) config)
    || not (maps_equal (entries ls.external_ids) ids)

module _ {S Op : Type 0} (switches : SwitchClient S Op) where
  -- The details of the switch are logged; an error of reading them is dropped.
  abbrev pub after_validation : Text → S × Result LogicalSwitch → S × Result Unit
  after_validation name (t, ok ls) = ((get_logical_switch_info switches name t).0, ok tt)
  after_validation name (t, err e) =
      (t, err (wrapped (codes "external Logical Switch validation failed") e))

  unfoldable pub verify_external_logical_switch : Text → Step S Unit
  unfolding validate_external_logical_switch get_logical_switch_info
  verify_external_logical_switch name s =
      after_validation name (validate_external_logical_switch switches name s)

  abbrev pub update_existing : Dict Text → Dict Text → LogicalSwitch → Step S Unit
  update_existing config ids ls s =
      if needs_update config ids ls
      then wrap_result (codes "failed to update Logical Switch")
          (update_logical_switch switches (changed_switch config ids ls) [] s)
      else (s, ok tt)

  abbrev pub ensure_found :
      Text → Dict Text → Dict Text → S × Result LogicalSwitch → S × Result Unit
  ensure_found name config ids (t, ok ls) =
      if marked_ours ls then update_existing config ids ls t else (t, err operation_failed)
  ensure_found name config ids (t, err e) =
      if is_not_found e
      then wrap_result (codes "failed to create Logical Switch")
          (discard (create_logical_switch switches name (some config) (some ids) t))
      else (t, err (wrapped (codes "failed to check existing Logical Switch") e))

  -- With external databases the switch is created safely.
  unfoldable pub ensure_logical_switch : Config → Subnet → Text → Step S Unit
  unfolding maps_equal get_logical_switch create_logical_switch update_logical_switch
      safe_create_logical_switch External.is_external_mode join
  ensure_logical_switch cfg subnet name s =
      if External.is_external_mode cfg
      then wrap_result (codes "failed to safely create Logical Switch") (
          discard (
            safe_create_logical_switch switches name
              (some (switch_config subnet.cidr subnet.exclude_ips)) (some (switch_ids subnet.name))
              s))
      else ensure_found name (switch_config subnet.cidr subnet.exclude_ips) (switch_ids subnet.name)
          (get_logical_switch switches name s)

  abbrev pub unless_missing : S × Result Unit → S × Result Unit
  unless_missing (t, ok u) = (t, ok u)
  unless_missing (t, err e) = if is_not_found e then (t, ok tt) else (t, err e)

  -- A switch that is not marked as ours is left alone.
  abbrev pub delete_found : Text → S × Result LogicalSwitch → S × Result Unit
  delete_found name (t, ok ls) =
      if marked_ours ls then delete_logical_switch switches name t else (t, ok tt)
  delete_found name (t, err e) = if is_not_found e then (t, ok tt) else (t, err e)

  unfoldable pub delete_subnet_switch : Config → Subnet → Step S Unit
  unfolding get_logical_switch delete_logical_switch safe_delete_logical_switch
      External.is_external_mode
  delete_subnet_switch cfg subnet s =
      if is_external_mode subnet
      then (s, ok tt)
      else if External.is_external_mode cfg
      then unless_missing (safe_delete_logical_switch switches (get_logical_switch_name subnet) s)
      else delete_found (get_logical_switch_name subnet)
          (get_logical_switch switches (get_logical_switch_name subnet) s)
