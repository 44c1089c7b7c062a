-- ===== src/Ovndb/LogicalSwitchPort.antt =====
-- pkg/ovndb/logical_switch_port.go: LogicalSwitchPortOps over clients of the tables of ports and switches.
use zstack_ovn_kubernetes.Base.{
  Bool, true, false, not, ◌&&◌, List, [], ◌∷◌, ◌++◌, Text, codes, Option, none, some, if◌then◌else◌,
  is_empty, text_eq,
}
use zstack_ovn_kubernetes.Base.Dict.{Dict, lookup}
use zstack_ovn_kubernetes.Ovndb.Errors.{Result, ok, err, Step, ◌>>=◌, is_not_found}
use zstack_ovn_kubernetes.Ovndb.Transact.{transact_and_check, build_named_uuid}
use zstack_ovn_kubernetes.Ovndb.Table.{
  TableClient, entries, merge, require_name, online, get_row, get_row_by_uuid, list_rows,
  list_rows_with_predicate, send, send_all, first_result,
}
use zstack_ovn_kubernetes.Ovndb.LogicalSwitch.{SwitchClient, insert_ports, delete_ports}
use zstack_ovn_kubernetes.Ovndb.PortName.{build_addresses}

-- The columns that the program reads and writes.
pub record LogicalSwitchPort : Type 0 where
  pub uuid : Text
  pub name : Text
  pub addresses : Option (List Text)
  pub type : Text
  pub options : Option (Dict Text)
  pub port_security : Option (List Text)
  pub external_ids : Option (Dict Text)
  pub enabled : Option Bool

pub data PortField : Type 0 where
  addresses_field : PortField
  port_security_field : PortField
  options_field : PortField
  external_ids_field : PortField
  enabled_field : PortField

abbrev pub PortClient : Type 0 → Type 0 → Type 0
PortClient S Op = TableClient S Op LogicalSwitchPort PortField Unit

-- Port security is set for a normal port (of the empty type) with a MAC and an address.
abbrev pub secured : Text → Text → List Text → Bool
secured type mac ips = is_empty type && (not (is_empty mac) && not (is_none ips))
  where
    is_none : List Text → Bool
    is_none [] = true
    is_none (ip ∷ rest) = false

abbrev pub new_port :
    Text → Text → List Text → Text → Option (Dict Text) → Option (Dict Text) → LogicalSwitchPort
new_port name mac ips type options ids = record {
  uuid = build_named_uuid name;
  name = name;
  addresses = some (build_addresses mac ips ∷ []);
  type = type;
  options = options;
  port_security = some (if secured type mac ips then build_addresses mac ips ∷ [] else []);
  external_ids = ids;
  enabled = some true;
}

abbrev pub port_field_if : {A : Type 0} → Option A → PortField → List PortField
port_field_if none f = []
port_field_if (some a) f = f ∷ []

unfoldable pub get_logical_switch_port_mutable_fields : LogicalSwitchPort → List PortField
get_logical_switch_port_mutable_fields lsp =
    port_field_if lsp.addresses addresses_field
    ++ (port_field_if lsp.port_security port_security_field
        ++ (port_field_if lsp.options options_field
            ++ (port_field_if lsp.external_ids external_ids_field
                ++ port_field_if lsp.enabled enabled_field)))

module _ {S Op : Type 0} (nb : PortClient S Op) (switches : SwitchClient S Op) where
  abbrev pub both_ops : Option (List Op) → Option (List Op) → Option (List Op)
  both_ops none second = none
  both_ops (some ops) none = none
  both_ops (some ops) (some more) = some (ops ++ more)

  abbrev pub created_port :
      LogicalSwitchPort → S × Result (List Text) → S × Result LogicalSwitchPort
  created_port lsp (t, ok us) = (t, ok (record lsp { uuid = first_result nb lsp.uuid us }))
  created_port lsp (t, err e) = (t, err e)

  -- The row is created and added to its switch in one transaction.
  abbrev pub insert_port : Text → Text → LogicalSwitchPort → Step S LogicalSwitchPort
  insert_port op switch lsp s = created_port lsp (
      send nb op lsp.name
        (both_ops (nb.create lsp) (switches.mutate switch (insert_ports (lsp.uuid ∷ [])))) s)

  unfoldable pub create_logical_switch_port_with_options :
      Text
      → Text
      → Text
      → List Text
      → Text
      → Option (Dict Text)
      → Option (Dict Text)
      → Step S LogicalSwitchPort
  unfolding transact_and_check build_addresses
  create_logical_switch_port_with_options switch name mac ips type options ids =
      require_name (codes "switchName") switch (
        require_name (codes "portName") name (
          online nb (
            insert_port (codes "CreateLogicalSwitchPortWithOptions") switch
              (new_port name mac ips type options ids))))

  unfoldable pub create_logical_switch_port :
      Text → Text → Text → List Text → Option (Dict Text) → Step S LogicalSwitchPort
  unfolding transact_and_check build_addresses
  create_logical_switch_port switch name mac ips ids = require_name (codes "switchName") switch (
      require_name (codes "portName") name (
        online nb (
          insert_port (codes "CreateLogicalSwitchPort") switch
            (new_port name mac ips [] none ids))))

  unfoldable pub get_logical_switch_port : Text → Step S LogicalSwitchPort
  get_logical_switch_port name =
      get_row nb (codes "LogicalSwitchPort") (codes "GetLogicalSwitchPort") name

  unfoldable pub get_logical_switch_port_by_uuid : Text → Step S LogicalSwitchPort
  get_logical_switch_port_by_uuid uuid =
      get_row_by_uuid nb (codes "LogicalSwitchPort") (codes "GetLogicalSwitchPortByUUID") uuid

  unfoldable pub list_logical_switch_ports : Step S (List LogicalSwitchPort)
  list_logical_switch_ports = list_rows nb (codes "ListLogicalSwitchPorts")

  unfoldable pub list_logical_switch_ports_with_predicate :
      (LogicalSwitchPort → Bool) → Step S (List LogicalSwitchPort)
  list_logical_switch_ports_with_predicate p =
      list_rows_with_predicate nb (codes "ListLogicalSwitchPortsWithPredicate") p

  -- A missing key reads as the empty text.
  abbrev pub in_namespace : Text → LogicalSwitchPort → Bool
  in_namespace namespace lsp =
      text_eq
        (elim (lookup (codes "namespace") (entries lsp.external_ids)) [ none ↦ [] | some n ↦ n ])
        namespace

  unfoldable pub list_logical_switch_ports_by_namespace : Text → Step S (List LogicalSwitchPort)
  unfolding list_logical_switch_ports_with_predicate
  list_logical_switch_ports_by_namespace namespace =
      list_logical_switch_ports_with_predicate (in_namespace namespace)

  abbrev pub port_fields : LogicalSwitchPort → List PortField → List PortField
  port_fields lsp [] = get_logical_switch_port_mutable_fields lsp
  port_fields lsp (f ∷ fields) = f ∷ fields

  -- The argument is not nil; the program calls it with a row.
  unfoldable pub update_logical_switch_port : LogicalSwitchPort → List PortField → Step S Unit
  unfolding transact_and_check get_logical_switch_port_mutable_fields
  update_logical_switch_port lsp fields = require_name (codes "lsp") lsp.name (
      online nb (
        send_all nb (codes "UpdateLogicalSwitchPort") lsp.name
          (nb.update lsp (port_fields lsp fields))))

  -- A port that does not exist is nothing to delete; else it leaves its switch and the table at once.
  abbrev pub delete_found : Text → Text → S × Result LogicalSwitchPort → S × Result Unit
  delete_found switch name (t, ok lsp) =
      send_all nb (codes "DeleteLogicalSwitchPort") name
        (both_ops (switches.mutate switch (delete_ports (lsp.uuid ∷ []))) (nb.delete_row lsp)) t
  delete_found switch name (t, err e) = if is_not_found e then (t, ok tt) else (t, err e)

  unfoldable pub delete_logical_switch_port : Text → Text → Step S Unit
  unfolding get_logical_switch_port transact_and_check
  delete_logical_switch_port switch name = require_name (codes "switchName") switch (
      require_name (codes "portName") name
        (online nb (λ s. delete_found switch name (get_logical_switch_port name s))))

  abbrev pub with_addresses : Text → List Text → LogicalSwitchPort → LogicalSwitchPort
  with_addresses mac ips lsp = record lsp {
    addresses = some (build_addresses mac ips ∷ []);
    port_security =
        if secured lsp.type mac ips then some (build_addresses mac ips ∷ []) else lsp.port_security;
  }

  unfoldable pub set_addresses : Text → Text → List Text → Step S Unit
  unfolding get_logical_switch_port update_logical_switch_port build_addresses
  set_addresses name mac ips = get_logical_switch_port name >>= λ lsp.
      update_logical_switch_port (with_addresses mac ips lsp)
        (addresses_field ∷ port_security_field ∷ [])

  unfoldable pub set_options : Text → Dict Text → Step S Unit
  unfolding get_logical_switch_port update_logical_switch_port merge
  set_options name options = get_logical_switch_port name >>= λ lsp.
      update_logical_switch_port
        (record lsp { options = some (merge options (entries lsp.options)) }) (options_field ∷ [])

  unfoldable pub set_external_ids : Text → Dict Text → Step S Unit
  unfolding get_logical_switch_port update_logical_switch_port merge
  set_external_ids name ids = get_logical_switch_port name >>= λ lsp.
      update_logical_switch_port
        (record lsp { external_ids = some (merge ids (entries lsp.external_ids)) })
        (external_ids_field ∷ [])

  unfoldable pub set_port_security : Text → Option (List Text) → Step S Unit
  unfolding get_logical_switch_port update_logical_switch_port
  set_port_security name security = get_logical_switch_port name >>= λ lsp.
      update_logical_switch_port (record lsp { port_security = security })
        (port_security_field ∷ [])

  unfoldable pub set_enabled : Text → Bool → Step S Unit
  unfolding get_logical_switch_port update_logical_switch_port
  set_enabled name enabled = get_logical_switch_port name >>= λ lsp.
      update_logical_switch_port (record lsp { enabled = some enabled }) (enabled_field ∷ [])
