-- ===== src/Ovn/Service/LastPort.antt =====
-- pkg/ovn/service_controller.go: the virtual addresses that a successful reconcileService leaves.
use zstack_ovn_kubernetes.Base.{
  ◌≡◌, refl, ◌∙◌, Bool, true, false, ◌&&◌, List, [], ◌∷◌, ◌++◌, Text, codes, Option, none, some,
  if◌then◌else◌, text_eq, ltb, All,
}
use zstack_ovn_kubernetes.Base.Dict.{Dict}
use zstack_ovn_kubernetes.Ovndb.Errors.{Result, Step, done, wrap}
use zstack_ovn_kubernetes.Ovndb.LoadBalancer.{LoadBalancer, LbClient, set_options}
use zstack_ovn_kubernetes.Ovndb.LogicalSwitch.{SwitchClient}
use zstack_ovn_kubernetes.Ovn.Service.{
  EndpointInfo, Node, cluster_ip_kind, node_port_kind, get_node_ips,
}
use zstack_ovn_kubernetes.Ovn.Service.Ports.{
  Api, Service, ServicePort, State, ignored, is_local_policy, node_local_backends,
  node_port_options, node_port_vips, port_protocol, port_vip, serves_nodes, single_vip,
}
use zstack_ovn_kubernetes.Ovn.Service.Ensure.{
  ensure_cluster_ip_load_balancer, ensure_load_balancer, ensure_node_port_load_balancer,
  ensure_on_nodes, update_options,
}
use zstack_ovn_kubernetes.Ovn.Service.Reconcile.{
  port_backends, reconcile_node_port, reconcile_port, reconcile_ports,
}
use zstack_ovn_kubernetes.Ovn.Service.Quiet.{
  ServiceTables, settled-Quiet, guarded-Quiet, set_options-Quiet,
}
use zstack_ovn_kubernetes.Ovn.Service.Names.{
  Known, KnownPort, cluster_lb, node_port_lb, cluster_lb_eq, node_port_lb_other,
}
use zstack_ovn_kubernetes.Ovn.Service.Written.{
  Wrote, Q, Keeps, Sets, ensure_load_balancer-Wrote, Wrote-Keeps, Wrote-Sets, wrap-Keeps, wrap-Sets,
  follow-Keeps, set_then_keep, then_set,
}

module _ {S Op : Type 0} (lbs : LbClient S Op) (switches : SwitchClient S Op) (api : Api)
    (rows : S → Dict LoadBalancer) (effects : List Op → Dict LoadBalancer → Dict LoadBalancer)
    (tables : ServiceTables lbs switches rows effects) (svc : Service)
    (endpoints : List EndpointInfo) where
  abbrev Kept : Text → State S → State S × Result Unit → Type 0
  Kept = Keeps lbs switches api rows effects tables

  abbrev Settled : Text → Dict Text → State S × Result Unit → Type 0
  Settled = Sets lbs switches api rows effects tables

  -- The addresses that a port asks of its load balancer: one, if it has backends.
  abbrev pub port_vips : ServicePort → Dict Text
  port_vips p = single_vip (port_vip svc p) (port_backends lbs switches api endpoints p)

  abbrev cluster_step : ServicePort → Step (State S) Unit
  cluster_step p =
      ensure_cluster_ip_load_balancer lbs switches api svc p (port_vip svc p)
        (port_backends lbs switches api endpoints p)

  abbrev message : Text
  message = codes "failed to ensure ClusterIP LB"

  cluster-Wrote :
      (p : ServicePort) (st : State S)
      → Wrote lbs switches api rows effects tables
          (cluster_lb svc (port_protocol p))
          (port_vips p)
          st
          (cluster_step p st)
  unfolding ensure_cluster_ip_load_balancer
  cluster-Wrote p st =
      ensure_load_balancer-Wrote lbs switches api rows effects tables svc cluster_ip_kind
        (port_protocol p) (port_protocol p) (port_vips p) none (done tt) st (λ s m. refl)

  update_options-quiet :
      (name : Text) (s : S)
      → Q lbs switches api rows effects tables s (update_options lbs switches api svc name s)
  update_options-quiet name s =
      guarded-Quiet lbs switches api rows effects tables (is_local_policy svc) s
        (ignored (set_options lbs name (node_port_options svc))) (done tt)
        (settled-Quiet lbs switches api rows effects tables s
          (set_options lbs name (node_port_options svc) s)
          (set_options-Quiet lbs switches api rows effects tables name (node_port_options svc) s))
        (λ m. refl)

  nodes-Keeps :
      (m : Text) (p : ServicePort) (backends : Text) (nodes : Option (List Node)) (st : State S)
      → text_eq (node_port_lb svc (port_protocol p)) m ≡ false
      → Kept m st (ensure_on_nodes lbs switches api svc p backends nodes st)
  nodes-Keeps m p backends none st other = tt
  nodes-Keeps m p backends (some nodes) st other =
      let name = node_port_lb svc (port_protocol p) in
      let vips =
        node_port_vips svc p backends (get_node_ips nodes) (
          node_local_backends (api.list_slices svc.namespace svc.name) (some nodes)
            p.target_port) in
      let step =
        ensure_load_balancer lbs switches api svc node_port_kind (port_protocol p)
          (port_protocol p ++ codes "_nodeport") vips (some (node_port_options svc))
          (update_options lbs switches api svc name) in
      Wrote-Keeps lbs switches api rows effects tables name m vips st (step st) other (
        ensure_load_balancer-Wrote lbs switches api rows effects tables svc node_port_kind
          (port_protocol p) (port_protocol p ++ codes "_nodeport") vips
          (some (node_port_options svc)) (update_options lbs switches api svc name) st
          (update_options-quiet name))

  node_port-Keeps :
      (m : Text) (p : ServicePort) (backends : Text) (st : State S)
      → text_eq (node_port_lb svc (port_protocol p)) m ≡ false
      → Kept m st (reconcile_node_port lbs switches api svc p backends st)
  unfolding ensure_node_port_load_balancer
  node_port-Keeps m p backends st other = by_test (serves_nodes svc.type && ltb 0 p.node_port)
    where
      by_test :
          (b : Bool)
          → Kept m st (
              (if b
                  then wrap
                      (codes "failed to ensure NodePort LB")
                      (ensure_on_nodes lbs switches api svc p backends api.list_nodes)
                  else done tt)
                st)
      by_test true =
          wrap-Keeps lbs switches api rows effects tables (codes "failed to ensure NodePort LB") m
            st (ensure_on_nodes lbs switches api svc p backends api.list_nodes st)
            (nodes-Keeps m p backends api.list_nodes st other)
      by_test false = refl

  -- The loop round of another port keeps the addresses at a name, its own sets them.
  reconcile_port-Keeps :
      (m : Text) (p : ServicePort) (st : State S)
      → text_eq (cluster_lb svc (port_protocol p)) m ≡ false
      → text_eq (node_port_lb svc (port_protocol p)) m ≡ false
      → Kept m st (reconcile_port lbs switches api svc endpoints p st)
  unfolding reconcile_port
  reconcile_port-Keeps m p st c n =
      follow-Keeps lbs switches api rows effects tables m st
        (λ x.
          reconcile_node_port lbs switches api svc p (port_backends lbs switches api endpoints p))
        (wrap message (cluster_step p) st)
        (wrap-Keeps lbs switches api rows effects tables message m st (cluster_step p st) (
          Wrote-Keeps lbs switches api rows effects tables (cluster_lb svc (port_protocol p)) m
            (port_vips p) st (cluster_step p st) c (cluster-Wrote p st)))
        (λ x u. node_port-Keeps m p (port_backends lbs switches api endpoints p) u n)

  reconcile_port-Sets :
      (p : ServicePort) (st : State S)
      → KnownPort p
      → Settled
          (cluster_lb svc (port_protocol p))
          (port_vips p)
          (reconcile_port lbs switches api svc endpoints p st)
  unfolding reconcile_port
  reconcile_port-Sets p st known =
      let m = cluster_lb svc (port_protocol p) in
      set_then_keep lbs switches api rows effects tables m (port_vips p)
        (λ x.
          reconcile_node_port lbs switches api svc p (port_backends lbs switches api endpoints p))
        (wrap message (cluster_step p) st)
        (wrap-Sets lbs switches api rows effects tables message m (port_vips p) (cluster_step p st)
          (Wrote-Sets lbs switches api rows effects tables m (port_vips p) st (cluster_step p st)
            (cluster-Wrote p st)))
        (λ x u.
          node_port-Keeps m p (port_backends lbs switches api endpoints p) u
            (node_port_lb_other svc (port_protocol p) (port_protocol p) known known))

  abbrev pub OtherProtocol : Text → ServicePort → Type 0
  OtherProtocol protocol p = text_eq (port_protocol p) protocol ≡ false

  reconcile_ports-Keeps :
      (protocol : Text) (ports : List ServicePort) (st : State S)
      → Known protocol
      → All KnownPort ports
      → All (OtherProtocol protocol) ports
      → Kept (cluster_lb svc protocol) st (reconcile_ports lbs switches api svc endpoints ports st)
  unfolding reconcile_ports
  reconcile_ports-Keeps protocol [] st k all other = refl
  reconcile_ports-Keeps protocol (p ∷ ports) st k all other =
      let m = cluster_lb svc protocol in
      follow-Keeps lbs switches api rows effects tables m st
        (λ x. reconcile_ports lbs switches api svc endpoints ports)
        (reconcile_port lbs switches api svc endpoints p st)
        (reconcile_port-Keeps m p st (cluster_lb_eq svc (port_protocol p) protocol ∙ other.0)
          (node_port_lb_other svc (port_protocol p) protocol all.0 k))
        (λ x u. reconcile_ports-Keeps protocol ports u k all.1 other.1)

  pub reconcile_ports-Sets :
      (front : List ServicePort) (p : ServicePort) (back : List ServicePort) (st : State S)
      → KnownPort p
      → All KnownPort back
      → All (OtherProtocol (port_protocol p)) back
      → Settled
          (cluster_lb svc (port_protocol p))
          (port_vips p)
          (reconcile_ports lbs switches api svc endpoints (front ++ p ∷ back) st)
  unfolding reconcile_ports
  reconcile_ports-Sets [] p back st k all other =
      set_then_keep lbs switches api rows effects tables (cluster_lb svc (port_protocol p))
        (port_vips p) (λ x. reconcile_ports lbs switches api svc endpoints back)
        (reconcile_port lbs switches api svc endpoints p st) (reconcile_port-Sets p st k)
        (λ x u. reconcile_ports-Keeps (port_protocol p) back u k all other)
  reconcile_ports-Sets (q ∷ front) p back st k all other =
      then_set lbs switches api rows effects tables (cluster_lb svc (port_protocol p)) (port_vips p)
        (λ x. reconcile_ports lbs switches api svc endpoints (front ++ p ∷ back))
        (reconcile_port lbs switches api svc endpoints q st)
        (λ x u. reconcile_ports-Sets front p back u k all other)
