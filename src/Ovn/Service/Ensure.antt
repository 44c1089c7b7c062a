-- ===== src/Ovn/Service/Ensure.antt =====
-- pkg/ovn/service_controller.go: ensureClusterIPLoadBalancer and ensureNodePortLoadBalancer.
use zstack_ovn_kubernetes.Base.{List, [], ◌∷◌, ◌++◌, Text, codes, Option, none, some, if◌then◌else◌}
use zstack_ovn_kubernetes.Base.Dict.{Dict}
use zstack_ovn_kubernetes.Ovndb.Errors.{
  Result, ok, err, Step, done, fail, ◌>>=◌, wrap, kubernetes_error, wrapped, is_not_found,
}
use zstack_ovn_kubernetes.Ovndb.LoadBalancer.{
  LoadBalancer, LbClient, create_load_balancer, get_load_balancer, set_vips, set_options,
}
use zstack_ovn_kubernetes.Ovndb.LogicalSwitch.{SwitchClient, add_load_balancers_to_logical_switch}
use zstack_ovn_kubernetes.Ovn.Subnets.{Subnet, is_active, get_logical_switch_name}
use zstack_ovn_kubernetes.Ovn.Service.{
  Node, LbKind, cluster_ip_kind, node_port_kind, get_endpoints_for_service,
  build_load_balancer_name, get_node_ips, get_node_ip_map, get_node_local_backends, cluster_vips,
}
use zstack_ovn_kubernetes.Ovn.Service.Ports.{
  Api, Service, ServicePort, State, external_ids, ignored, is_local_policy, lb_words, local_vips,
  node_local_backends, node_port_options, node_port_vips, on_db, port_protocol, single_vip, track,
}

module _ {S Op : Type 0} (lbs : LbClient S Op) (switches : SwitchClient S Op) (api : Api) where
  unfoldable pub attach_to_subnets : Text → List Subnet → Step S Unit
  unfolding add_load_balancers_to_logical_switch
  attach_to_subnets uuid [] = done tt
  attach_to_subnets uuid (s ∷ subnets) =
      (if is_active s
        then ignored
            (add_load_balancers_to_logical_switch switches (get_logical_switch_name s) (uuid ∷ []))
        else done tt)
      >>= λ x. attach_to_subnets uuid subnets

  abbrev pub attach_listed : Text → Option (List Subnet) → Step S Unit
  attach_listed uuid none = fail kubernetes_error
  attach_listed uuid (some subnets) = attach_to_subnets uuid subnets

  unfoldable pub attach_load_balancer_to_switches : Text → Step S Unit
  unfolding attach_to_subnets
  attach_load_balancer_to_switches uuid = attach_listed uuid api.list_subnets

  -- What both ensure functions do with a name and its addresses: a load balancer that exists has its
  -- addresses replaced, else one is created and attached; its UUID is tracked under a key.
  abbrev pub ensure_found :
      Service
      → LbKind
      → Text
      → Text
      → Text
      → Dict Text
      → Option (Dict Text)
      → Step S Unit
      → State S × Result LoadBalancer
      → State S × Result Unit
  ensure_found svc kind name protocol key vips options then_options (st, ok lb) =
      (wrap (codes "failed to update " ++ (lb_words kind ++ codes " VIPs"))
            (on_db (set_vips lbs name (some vips)))
          >>= λ x. on_db then_options >>= λ y. track svc key lb.uuid)
        st
  ensure_found svc kind name protocol key vips options then_options (st, err e) =
      if is_not_found e
      then (wrap (codes "failed to create " ++ lb_words kind) (
              on_db (
                create_load_balancer lbs name protocol (some vips) options
                  (some (external_ids svc kind))))
            >>= λ lb. track svc key lb.uuid >>= λ x.
                ignored (on_db (attach_load_balancer_to_switches lb.uuid)))
          st
      else (st, err (wrapped (codes "failed to get existing " ++ lb_words kind) e))

  unfoldable pub ensure_load_balancer :
      Service
      → LbKind
      → Text
      → Text
      → Dict Text
      → Option (Dict Text)
      → Step S Unit
      → Step (State S) Unit
  unfolding set_vips create_load_balancer get_load_balancer attach_load_balancer_to_switches
      build_load_balancer_name
  ensure_load_balancer svc kind protocol key vips options then_options st =
      let name = build_load_balancer_name svc.namespace svc.name protocol kind in
      ensure_found svc kind name protocol key vips options then_options
        (on_db (get_load_balancer lbs name) st)

  unfoldable pub ensure_cluster_ip_load_balancer :
      Service → ServicePort → Text → Text → Step (State S) Unit
  unfolding ensure_load_balancer
  ensure_cluster_ip_load_balancer svc p vip backends =
      ensure_load_balancer svc cluster_ip_kind (port_protocol p) (port_protocol p)
        (single_vip vip backends) none (done tt)

  -- SetOptions is called where there is an option; its error is logged.
  abbrev pub update_options : Service → Text → Step S Unit
  update_options svc name =
      if is_local_policy svc
      then ignored (set_options lbs name (node_port_options svc))
      else done tt

  abbrev pub ensure_on_nodes :
      Service → ServicePort → Text → Option (List Node) → Step (State S) Unit
  ensure_on_nodes svc p backends none =
      fail (wrapped (codes "failed to get node IPs") kubernetes_error)
  ensure_on_nodes svc p backends (some nodes) =
      let name = build_load_balancer_name svc.namespace svc.name (port_protocol p) node_port_kind in
      let local_backends =
        node_local_backends (api.list_slices svc.namespace svc.name) (some nodes) p.target_port in
      ensure_load_balancer svc node_port_kind (port_protocol p)
        (port_protocol p ++ codes "_nodeport")
        (node_port_vips svc p backends (get_node_ips nodes) local_backends)
        (some (node_port_options svc)) (update_options svc name)

  unfoldable pub ensure_node_port_load_balancer : Service → ServicePort → Text → Step (State S) Unit
  unfolding ensure_load_balancer set_options get_endpoints_for_service get_node_ips get_node_ip_map
      get_node_local_backends cluster_vips local_vips
  ensure_node_port_load_balancer svc p backends = ensure_on_nodes svc p backends api.list_nodes
