-- ===== src/Ovn/Service/Reconcile.antt =====
-- pkg/ovn/service_controller.go: Reconcile, the loop over the ports, the cleanup and the deletion.
use zstack_ovn_kubernetes.Base.{
  not, ◌&&◌, List, [], ◌∷◌, Text, codes, Option, none, some, if◌then◌else◌, ltb,
}
use zstack_ovn_kubernetes.Base.Dict.{Dict, delete}
use zstack_ovn_kubernetes.Ovndb.Errors.{
  Result, ok, err, Step, done, fail, ◌>>=◌, wrap, kubernetes_error, wrapped,
}
use zstack_ovn_kubernetes.Ovndb.LoadBalancer.{
  LoadBalancer, LbClient, delete_load_balancer, list_load_balancers_with_predicate,
}
use zstack_ovn_kubernetes.Ovndb.LogicalSwitch.{
  LogicalSwitch, SwitchClient, list_logical_switches, remove_load_balancers_from_logical_switch,
}
use zstack_ovn_kubernetes.Ovn.Subnets.{has_text}
use zstack_ovn_kubernetes.Ovn.Service.{
  EndpointSlice, EndpointInfo, get_endpoints_for_service, build_endpoint_backends,
  build_load_balancer_name, get_tracked_load_balancers, should_manage_service, service_key,
}
use zstack_ovn_kubernetes.Ovn.Service.Ports.{
  Api, Service, ServiceAnswer, ServicePort, State, current_protocols, ignored, not_there,
  of_service, on_db, port_vip, serves_nodes, service, stale_name, strip_suffix, unreachable,
}
use zstack_ovn_kubernetes.Ovn.Service.Ensure.{
  ensure_cluster_ip_load_balancer, ensure_node_port_load_balancer,
}

module _ {S Op : Type 0} (lbs : LbClient S Op) (switches : SwitchClient S Op) (api : Api) where
  abbrev pub port_backends : List EndpointInfo → ServicePort → Text
  port_backends endpoints p = build_endpoint_backends endpoints p.target_port

  abbrev pub reconcile_node_port : Service → ServicePort → Text → Step (State S) Unit
  reconcile_node_port svc p backends =
      if serves_nodes svc.type && ltb 0 p.node_port
      then wrap (codes "failed to ensure NodePort LB")
          (ensure_node_port_load_balancer lbs switches api svc p backends)
      else done tt

  -- One round of the loop over the ports.
  unfoldable pub reconcile_port : Service → List EndpointInfo → ServicePort → Step (State S) Unit
  unfolding ensure_cluster_ip_load_balancer ensure_node_port_load_balancer build_endpoint_backends
  reconcile_port svc endpoints p =
      wrap (codes "failed to ensure ClusterIP LB") (
        ensure_cluster_ip_load_balancer lbs switches api svc p (port_vip svc p)
          (port_backends endpoints p))
      >>= λ x. reconcile_node_port svc p (port_backends endpoints p)

  unfoldable pub reconcile_ports :
      Service → List EndpointInfo → List ServicePort → Step (State S) Unit
  unfolding reconcile_port
  reconcile_ports svc endpoints [] = done tt
  reconcile_ports svc endpoints (p ∷ ports) =
      reconcile_port svc endpoints p >>= λ x. reconcile_ports svc endpoints ports

  abbrev pub delete_stale : Service → Text → Step S Unit
  delete_stale svc key = ignored (delete_load_balancer lbs (stale_name svc key))

  unfoldable pub delete_stale_all : Service → List Text → Dict Text → Step S Unit
  unfolding delete_load_balancer strip_suffix build_load_balancer_name
  delete_stale_all svc current [] = done tt
  delete_stale_all svc current ((key, uuid) ∷ tracked) =
      (if has_text current key then done tt else delete_stale svc key) >>= λ x.
      delete_stale_all svc current tracked

  abbrev pub delete_tracked : Service → Option (Dict Text) → Step S Unit
  delete_tracked svc none = done tt
  delete_tracked svc (some tracked) =
      delete_stale_all svc (current_protocols svc.type svc.ports) tracked

  unfoldable pub cleanup_stale_load_balancers : Service → Step (State S) Unit
  unfolding delete_stale_all current_protocols
  cleanup_stale_load_balancers svc st =
      on_db (delete_tracked svc (get_tracked_load_balancers st.service_lbs svc.namespace svc.name))
        st

  abbrev pub reconcile_listed : Service → Option (List EndpointSlice) → Step (State S) Unit
  reconcile_listed svc none = fail (wrapped (codes "failed to get endpoints") kubernetes_error)
  reconcile_listed svc (some slices) =
      reconcile_ports svc (get_endpoints_for_service slices) svc.ports >>= λ x.
      ignored (cleanup_stale_load_balancers svc)

  unfoldable pub reconcile_service : Service → Step (State S) Unit
  unfolding reconcile_ports cleanup_stale_load_balancers get_endpoints_for_service
  reconcile_service svc = reconcile_listed svc (api.list_slices svc.namespace svc.name)

  -- The switches that hold a load balancer lose it.
  unfoldable pub detach_from : Text → List LogicalSwitch → Step S Unit
  unfolding remove_load_balancers_from_logical_switch
  detach_from uuid [] = done tt
  detach_from uuid (ls ∷ rest) =
      (if has_text ls.load_balancer uuid
        then ignored (remove_load_balancers_from_logical_switch switches ls.name (uuid ∷ []))
        else done tt)
      >>= λ x. detach_from uuid rest

  unfoldable pub detach_load_balancer_from_switches : Text → Step S Unit
  unfolding detach_from list_logical_switches
  detach_load_balancer_from_switches uuid =
      wrap (codes "failed to list switches") (list_logical_switches switches) >>= detach_from uuid

  unfoldable pub delete_all : List LoadBalancer → Step S Unit
  unfolding detach_load_balancer_from_switches delete_load_balancer
  delete_all [] = done tt
  delete_all (lb ∷ rest) = ignored (detach_load_balancer_from_switches lb.uuid) >>= λ x.
      ignored (delete_load_balancer lbs lb.name) >>= λ y. delete_all rest

  abbrev pub listed_or_none : S × Result (List LoadBalancer) → S × Result (List LoadBalancer)
  listed_or_none (t, ok found) = (t, ok found)
  listed_or_none (t, err e) = (t, ok [])

  abbrev pub forget : Text → Text → Step (State S) Unit
  forget namespace name st =
      (record st { service_lbs = delete (service_key namespace name) st.service_lbs }, ok tt)

  unfoldable pub handle_deletion : Text → Text → Step (State S) Unit
  unfolding delete_all list_load_balancers_with_predicate
  handle_deletion namespace name =
      on_db (
        (λ s. listed_or_none (list_load_balancers_with_predicate lbs (of_service namespace name) s))
        >>= delete_all)
      >>= λ x. forget namespace name

  abbrev pub reconcile_answer : Text → Text → ServiceAnswer → Step (State S) Unit
  reconcile_answer namespace name unreachable = fail kubernetes_error
  reconcile_answer namespace name not_there = handle_deletion namespace name
  reconcile_answer namespace name (service svc) =
      if svc.deleting
      then handle_deletion svc.namespace svc.name
      else if not (should_manage_service svc.type svc.cluster_ip)
      then done tt
      else reconcile_service svc

  unfoldable pub reconcile : Text → Text → Step (State S) Unit
  unfolding handle_deletion reconcile_service
  reconcile namespace name = reconcile_answer namespace name (api.get_service namespace name)
