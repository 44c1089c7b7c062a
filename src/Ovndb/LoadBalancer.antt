-- ===== src/Ovndb/LoadBalancer.antt =====
-- pkg/ovndb/load_balancer.go: LoadBalancerOps over a client of the Load_Balancer table.
pub mod Rows
use zstack_ovn_kubernetes.Base.{
  Bool, true, false, not, ◌||◌, List, [], ◌∷◌, ◌++◌, Text, codes, Option, none, some, if◌then◌else◌,
  is_empty, text_eq, join,
}
use zstack_ovn_kubernetes.Base.Dict.{Dict, insert}
use zstack_ovn_kubernetes.Ovndb.Errors.{
  Result, ok, err, Step, done, fail, follow, ◌>>=◌, Error, validation_error, transaction_error,
  not_connected, is_not_found,
}
use zstack_ovn_kubernetes.Ovndb.Transact.{transact_and_check, build_named_uuid}
use zstack_ovn_kubernetes.Ovndb.Table.{
  TableClient, entries, merge, require_name, discard, online, get_row, get_row_by_uuid, list_rows,
  list_rows_with_predicate, send, send_all, first_result, Answer,
}

-- A map that is none is nil.
pub record LoadBalancer : Type 0 where
  pub uuid : Text
  pub name : Text
  pub vips : Option (Dict Text)
  pub protocol : Option Text
  pub options : Option (Dict Text)
  pub external_ids : Option (Dict Text)
  pub health_check : Option (List Text)
  pub ip_port_mappings : Option (Dict Text)
  pub selection_fields : Option (List Text)

pub data LbField : Type 0 where
  name_field : LbField
  vips_field : LbField
  protocol_field : LbField
  options_field : LbField
  external_ids_field : LbField
  selection_fields_field : LbField
  ip_port_mappings_field : LbField
  health_check_field : LbField

-- The mutation of RemoveVip: MutateOperationDelete of a map on the column of VIPs.
pub data LbChange : Type 0 where
  delete_vips : Dict Text → LbChange

abbrev pub LbClient : Type 0 → Type 0 → Type 0
LbClient S Op = TableClient S Op LoadBalancer LbField LbChange

abbrev pub or_tcp : Text → Text
or_tcp protocol = if is_empty protocol then codes "tcp" else protocol

abbrev pub protocol_valid : Text → Bool
protocol_valid p = text_eq p (codes "tcp") || (text_eq p (codes "udp") || text_eq p (codes "sctp"))

abbrev pub new_load_balancer :
    Text → Text → Option (Dict Text) → Option (Dict Text) → Option (Dict Text) → LoadBalancer
new_load_balancer name protocol vips options ids = record {
  uuid = build_named_uuid name;
  name = name;
  vips = vips;
  protocol = some protocol;
  options = options;
  external_ids = ids;
  health_check = none;
  ip_port_mappings = none;
  selection_fields = none;
}

abbrev pub field_if : {A : Type 0} → Option A → LbField → List LbField
field_if none f = []
field_if (some a) f = f ∷ []

unfoldable pub get_load_balancer_mutable_fields : LoadBalancer → List LbField
get_load_balancer_mutable_fields lb =
    (if is_empty lb.name then [] else name_field ∷ [])
    ++ (field_if lb.vips vips_field
        ++ (field_if lb.protocol protocol_field
            ++ (field_if lb.options options_field
                ++ (field_if lb.external_ids external_ids_field
                    ++ (field_if lb.selection_fields selection_fields_field
                        ++ (field_if lb.ip_port_mappings ip_port_mappings_field
                            ++ field_if lb.health_check health_check_field))))))

module _ {S Op : Type 0} (nb : LbClient S Op) where
  abbrev pub created_lb : LoadBalancer → S × Result (List Text) → S × Result LoadBalancer
  created_lb lb (t, ok us) = (t, ok (record lb { uuid = first_result nb lb.uuid us }))
  created_lb lb (t, err e) = (t, err e)

  unfoldable pub create_load_balancer :
      Text
      → Text
      → Option (Dict Text)
      → Option (Dict Text)
      → Option (Dict Text)
      → Step S LoadBalancer
  unfolding transact_and_check
  create_load_balancer name protocol vips options ids =
      let lb = new_load_balancer name (or_tcp protocol) vips options ids in
      require_name (codes "name") name (
        if not (protocol_valid (or_tcp protocol))
        then fail (validation_error (codes "protocol"))
        else online nb
            (λ s. created_lb lb (send nb (codes "CreateLoadBalancer") name (nb.create lb) s)))

  unfoldable pub get_load_balancer : Text → Step S LoadBalancer
  get_load_balancer name = get_row nb (codes "LoadBalancer") (codes "GetLoadBalancer") name

  unfoldable pub get_load_balancer_by_uuid : Text → Step S LoadBalancer
  get_load_balancer_by_uuid uuid =
      get_row_by_uuid nb (codes "LoadBalancer") (codes "GetLoadBalancerByUUID") uuid

  unfoldable pub list_load_balancers : Step S (List LoadBalancer)
  list_load_balancers = list_rows nb (codes "ListLoadBalancers")

  unfoldable pub list_load_balancers_with_predicate :
      (LoadBalancer → Bool) → Step S (List LoadBalancer)
  list_load_balancers_with_predicate p =
      list_rows_with_predicate nb (codes "ListLoadBalancersWithPredicate") p

  abbrev pub fields_or_mutable : LoadBalancer → List LbField → List LbField
  fields_or_mutable lb [] = get_load_balancer_mutable_fields lb
  fields_or_mutable lb (f ∷ fields) = f ∷ fields

  -- The argument is not nil; the program calls it with a row.
  unfoldable pub update_load_balancer : LoadBalancer → List LbField → Step S Unit
  unfolding transact_and_check get_load_balancer_mutable_fields
  update_load_balancer lb fields = require_name (codes "lb") lb.name (
      online nb (
        send_all nb (codes "UpdateLoadBalancer") lb.name
          (nb.update lb (fields_or_mutable lb fields))))

  unfoldable pub delete_load_balancer : Text → Step S Unit
  unfolding transact_and_check
  delete_load_balancer name =
      require_name (codes "name") name
        (online nb (send_all nb (codes "DeleteLoadBalancer") name (nb.delete name)))

  unfoldable pub delete_load_balancer_ops : Text → Step S (Option (List Op))
  delete_load_balancer_ops name =
      require_name (codes "name") name (online nb (done (nb.delete name)))

  -- CreateOrUpdateLoadBalancer.
  abbrev pub create_or_update_found : LoadBalancer → S × Result LoadBalancer → S × Result Unit
  create_or_update_found lb (t, ok existing) =
      update_load_balancer (record lb { uuid = existing.uuid }) [] t
  create_or_update_found lb (t, err e) =
      if is_not_found e
      then discard (
          create_load_balancer lb.name (elim lb.protocol [ none ↦ codes "tcp" | some p ↦ p ])
            lb.vips lb.options lb.external_ids t)
      else (t, err e)

  unfoldable pub create_or_update_load_balancer : LoadBalancer → Step S Unit
  unfolding get_load_balancer update_load_balancer create_load_balancer
  create_or_update_load_balancer lb =
      require_name (codes "lb") lb.name
        (online nb (λ s. create_or_update_found lb (get_load_balancer lb.name s)))

  unfoldable pub set_vips : Text → Option (Dict Text) → Step S Unit
  unfolding get_load_balancer update_load_balancer
  set_vips name vips = get_load_balancer name >>= λ lb.
      update_load_balancer (record lb { vips = vips }) (vips_field ∷ [])

  unfoldable pub add_vip : Text → Text → Text → Step S Unit
  unfolding get_load_balancer update_load_balancer
  add_vip name vip backends = get_load_balancer name >>= λ lb.
      update_load_balancer (record lb { vips = some (insert vip backends (entries lb.vips)) })
        (vips_field ∷ [])

  unfoldable pub remove_vip : Text → Text → Step S Unit
  unfolding transact_and_check
  remove_vip name vip =
      online nb
        (send_all nb (codes "RemoveVip") name (nb.mutate name (delete_vips ((vip, []) ∷ []))))

  unfoldable pub update_backends : Text → Text → List Text → Step S Unit
  unfolding get_load_balancer update_load_balancer
  update_backends name vip backends = get_load_balancer name >>= λ lb.
      update_load_balancer
        (record lb { vips = some (insert vip (join backends (codes ",")) (entries lb.vips)) })
        (vips_field ∷ [])

  unfoldable pub set_options : Text → Dict Text → Step S Unit
  unfolding get_load_balancer update_load_balancer merge
  set_options name options = get_load_balancer name >>= λ lb.
      update_load_balancer (record lb { options = some (merge options (entries lb.options)) })
        (options_field ∷ [])

  unfoldable pub set_external_ids : Text → Dict Text → Step S Unit
  unfolding get_load_balancer update_load_balancer merge
  set_external_ids name ids = get_load_balancer name >>= λ lb.
      update_load_balancer (record lb { external_ids = some (merge ids (entries lb.external_ids)) })
        (external_ids_field ∷ [])
