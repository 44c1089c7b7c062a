-- ===== src/Ovndb/Acl/Update.antt =====
-- pkg/ovndb/acl.go: the operations of ACLOps that the policy controller does not use, over a client of
-- the table of ACLs, and the builders of match texts.
use zstack_ovn_kubernetes.Base.{
  ◌≡◌, refl, Bool, true, not, List, [], ◌∷◌, ◌++◌, Text, codes, Option, none, some, if◌then◌else◌,
  is_empty, ℤ, decimal_int,
}
use zstack_ovn_kubernetes.Base.Dict.{Dict}
use zstack_ovn_kubernetes.Ovndb.Errors.{
  Result, ok, err, Step, fail, ◌>>=◌, validation_error, not_connected, operation_failed,
}
use zstack_ovn_kubernetes.Ovndb.Transact.{transact_and_check}
use zstack_ovn_kubernetes.Ovndb.Table.{
  TableClient, merge, require_name, online, get_row_by_uuid, list_rows, send, send_all,
  first_result,
}
use zstack_ovn_kubernetes.Ovndb.Acl.{
  Acl, direction_valid, priority_valid, action_valid, created_acl,
}

pub data AclField : Type 0 where
  action_field : AclField
  direction_field : AclField
  external_ids_field : AclField
  log_field : AclField
  match_field : AclField
  meter_field : AclField
  name_field : AclField
  options_field : AclField
  priority_field : AclField
  severity_field : AclField
  tier_field : AclField

abbrev pub AclClient : Type 0 → Type 0 → Type 0
AclClient S Op = TableClient S Op Acl AclField Unit

-- getACLMutableFields: every column, whatever the row holds.
abbrev pub get_acl_mutable_fields : List AclField
get_acl_mutable_fields =
    action_field ∷ direction_field ∷ external_ids_field ∷ log_field ∷ match_field ∷ meter_field
    ∷ name_field ∷ options_field ∷ priority_field ∷ severity_field ∷ tier_field ∷ []

abbrev pub severity_of : Text → Option Text
severity_of s = if is_empty s then none else some s

module _ {S Op : Type 0} (nb : AclClient S Op) where
  unfoldable pub get_acl : Text → Step S Acl
  get_acl uuid = get_row_by_uuid nb (codes "ACL") (codes "GetACL") uuid

  unfoldable pub list_acls : Step S (List Acl)
  list_acls = list_rows nb (codes "ListACLs")

  abbrev pub created_row : Acl → S × Result (List Text) → S × Result Acl
  created_row a (t, ok us) = (t, ok (record a { uuid = first_result nb a.uuid us }))
  created_row a (t, err e) = (t, err e)

  -- The details of an error of Create print a pointer, and are left out.
  abbrev pub insert_acl : Acl → Step S Acl
  insert_acl a s = created_row a (send nb (codes "CreateACLWithLogging") [] (nb.create a) s)

  unfoldable pub create_acl_with_logging :
      Option Text → Text → ℤ → Text → Text → Text → Dict Text → Step S Acl
  unfolding transact_and_check
  create_acl_with_logging name direction priority expr action severity ids =
      if not (direction_valid direction)
      then fail (validation_error (codes "direction"))
      else if not (priority_valid priority)
      then fail (validation_error (codes "priority"))
      else if not (action_valid action)
      then fail (validation_error (codes "action"))
      else if is_empty expr
      then fail (validation_error (codes "match"))
      else online nb (
          insert_acl (record (created_acl name direction priority expr action ids) {
            log = true;
            severity = severity_of severity;
          }))

  abbrev pub fields_or_all : List AclField → List AclField
  fields_or_all [] = get_acl_mutable_fields
  fields_or_all (f ∷ fields) = f ∷ fields

  -- The argument is not nil; the program calls it with a row.
  unfoldable pub update_acl : Acl → List AclField → Step S Unit
  unfolding transact_and_check
  update_acl a fields =
      require_name (codes "acl") a.uuid
        (online nb (send_all nb (codes "UpdateACL") a.uuid (nb.update a (fields_or_all fields))))

  -- The operations; an error of Delete is passed on.
  abbrev pub built : Option (List Op) → Result (List Op)
  built none = err operation_failed
  built (some ops) = ok ops

  abbrev pub delete_acl_ops : Text → Step S (List Op)
  delete_acl_ops uuid s =
      if is_empty uuid
      then (s, err (validation_error (codes "uuid")))
      else if nb.connected s
      then (s, built (nb.delete uuid))
      else (s, err not_connected)

  unfoldable pub set_logging : Text → Bool → Text → Step S Unit
  unfolding get_acl update_acl
  set_logging uuid log severity = get_acl uuid >>= λ a.
      update_acl (record a { log = log; severity = severity_of severity })
        (log_field ∷ severity_field ∷ [])

  unfoldable pub set_external_ids : Text → Dict Text → Step S Unit
  unfolding get_acl update_acl merge
  set_external_ids uuid ids = get_acl uuid >>= λ a.
      update_acl (record a { external_ids = merge ids a.external_ids }) (external_ids_field ∷ [])

-- An empty condition after the first is left out; an empty first one is kept.
unfoldable pub join_conditions : Text → List Text → Text
join_conditions result [] = result
join_conditions result (c ∷ cs) =
    join_conditions (if is_empty c then result else result ++ codes " && " ++ c) cs

unfoldable pub build_match_expression : List Text → Text
unfolding join_conditions
build_match_expression [] = []
build_match_expression (c ∷ cs) = join_conditions c cs

abbrev pub build_ip_match : Text → Text → Text
build_ip_match field cidr = field ++ codes " == " ++ cidr

abbrev pub build_port_match : Text → Text → ℤ → Text
build_port_match protocol direction port =
    protocol ++ b'.' ∷ (direction ++ codes " == " ++ decimal_int port)

abbrev pub build_port_range_match : Text → Text → ℤ → ℤ → Text
build_port_range_match protocol direction first last =
    protocol
    ++ b'.'
      ∷ (direction
          ++ codes " >= "
          ++ decimal_int first
          ++ codes " && "
          ++ protocol
          ++ b'.' ∷ (direction ++ codes " <= " ++ decimal_int last))

abbrev pub build_inport_match : Text → Text
build_inport_match port = codes "inport == \"" ++ port ++ codes "\""

abbrev pub build_outport_match : Text → Text
build_outport_match port = codes "outport == \"" ++ port ++ codes "\""

-- An empty first condition leaves a text that starts with the operator.
empty_first : build_match_expression ([] ∷ codes "ip4" ∷ []) ≡ codes " && ip4"
unfolding build_match_expression
empty_first = refl
