-- ===== src/Ovndb/Zstack/Guarded.antt =====
-- pkg/ovndb/zstack.go: the operations of ZStackCompatibility.
use zstack_ovn_kubernetes.Base.{
  Bool, not, List, [], ◌∷◌, ◌++◌, Text, codes, Option, some, if◌then◌else◌,
}
use zstack_ovn_kubernetes.Base.Dict.{Dict}
use zstack_ovn_kubernetes.Ovndb.Errors.{
  Result, ok, err, Step, ◌>>=◌, is_not_found, wrapped, operation_failed,
}
use zstack_ovn_kubernetes.Ovndb.Table.{entries}
use zstack_ovn_kubernetes.Ovndb.LogicalSwitch.{
  LogicalSwitch, SwitchClient, get_logical_switch, list_logical_switches, update_logical_switch,
  create_logical_switch, delete_logical_switch,
}
use zstack_ovn_kubernetes.Ovndb.Zstack.{
  is_zstack_managed, is_our_managed, keep, Warning, names_of, marker_warnings, prefix_warnings,
  put_all, our_ids, LogicalSwitchInfo, info_of,
}

module _ {S Op : Type 0} (nb : SwitchClient S Op) where
  abbrev pub validated : Text → S × Result LogicalSwitch → S × Result LogicalSwitch
  validated name (t, ok ls) = (t, ok ls)
  validated name (t, err e) =
      if is_not_found e
      then (t, err operation_failed)
      else (t, err (wrapped (codes "failed to get Logical Switch") e))

  unfoldable pub validate_external_logical_switch : Text → Step S LogicalSwitch
  unfolding get_logical_switch
  validate_external_logical_switch [] s = (s, err operation_failed)
  validate_external_logical_switch (c ∷ name) s =
      validated (c ∷ name) (get_logical_switch nb (c ∷ name) s)

  abbrev pub list_kept : (LogicalSwitch → Bool) → Step S (List LogicalSwitch)
  list_kept p = list_logical_switches nb >>= λ found. λ t. (t, ok (keep p found))

  unfoldable pub list_zstack_logical_switches : Step S (List LogicalSwitch)
  unfolding list_logical_switches keep is_zstack_managed
  list_zstack_logical_switches = list_kept is_zstack_managed

  unfoldable pub list_our_logical_switches : Step S (List LogicalSwitch)
  unfolding list_logical_switches keep is_our_managed
  list_our_logical_switches = list_kept is_our_managed

  abbrev pub warnings_for : List LogicalSwitch → List Warning
  warnings_for found =
      let zstack = names_of is_zstack_managed found [] in
      marker_warnings (names_of is_our_managed found []) zstack ++ prefix_warnings zstack

  unfoldable pub check_for_conflicts : Step S (List Warning)
  unfolding list_logical_switches names_of marker_warnings prefix_warnings is_zstack_managed
      is_our_managed
  check_for_conflicts s = conflicts (list_logical_switches nb s)
    where
      conflicts : S × Result (List LogicalSwitch) → S × Result (List Warning)
      conflicts (t, ok found) = (t, ok (warnings_for found))
      conflicts (t, err e) = (t, err (wrapped (codes "failed to list logical switches") e))

  abbrev pub updated_switch :
      Option (Dict Text) → Option (Dict Text) → LogicalSwitch → LogicalSwitch
  updated_switch config ids existing = record existing {
    other_config = config;
    external_ids = some (our_ids (put_all (entries ids) (entries existing.external_ids)));
  }

  abbrev pub returned : LogicalSwitch → S × Result Unit → S × Result LogicalSwitch
  returned ls (t, ok u) = (t, ok ls)
  returned ls (t, err e) = (t, err (wrapped (codes "failed to update Logical Switch") e))

  abbrev pub safely_created :
      Text
      → Option (Dict Text)
      → Option (Dict Text)
      → S × Result LogicalSwitch
      → S × Result LogicalSwitch
  safely_created name config ids (t, ok existing) =
      if is_zstack_managed existing
      then (t, err operation_failed)
      else if is_our_managed existing
      then returned (updated_switch config ids existing)
          (update_logical_switch nb (updated_switch config ids existing) [] t)
      else (t, err operation_failed)
  safely_created name config ids (t, err e) =
      if is_not_found e
      then create_logical_switch nb name config (some (our_ids (entries ids))) t
      else (t, err (wrapped (codes "failed to check existing Logical Switch") e))

  unfoldable pub safe_create_logical_switch :
      Text → Option (Dict Text) → Option (Dict Text) → Step S LogicalSwitch
  unfolding get_logical_switch update_logical_switch create_logical_switch is_zstack_managed
      is_our_managed put_all
  safe_create_logical_switch name config ids s =
      safely_created name config ids (get_logical_switch nb name s)

  abbrev pub safely_deleted : Text → S × Result LogicalSwitch → S × Result Unit
  safely_deleted name (t, ok ls) =
      if is_zstack_managed ls
      then (t, err operation_failed)
      else if not (is_our_managed ls)
      then (t, err operation_failed)
      else delete_logical_switch nb name t
  safely_deleted name (t, err e) =
      if is_not_found e
      then (t, ok tt)
      else (t, err (wrapped (codes "failed to get Logical Switch") e))

  unfoldable pub safe_delete_logical_switch : Text → Step S Unit
  unfolding get_logical_switch delete_logical_switch is_zstack_managed is_our_managed
  safe_delete_logical_switch name s = safely_deleted name (get_logical_switch nb name s)

  unfoldable pub get_logical_switch_info : Text → Step S LogicalSwitchInfo
  unfolding get_logical_switch is_zstack_managed is_our_managed
  get_logical_switch_info name = get_logical_switch nb name >>= λ ls. λ t. (t, ok (info_of ls))
