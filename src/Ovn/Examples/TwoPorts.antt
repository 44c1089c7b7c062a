-- ===== src/Ovn/Examples/TwoPorts.antt =====
-- pkg/ovn/service_controller.go: a service with two ports of one protocol, in a table in memory.
use zstack_ovn_kubernetes.Base.{◌≡◌, refl, true, false, List, [], ◌∷◌, codes, none, some, text_eq}
use zstack_ovn_kubernetes.Base.Dict.{lookup, insert}
use zstack_ovn_kubernetes.Ovndb.LoadBalancer.Rows.{vips_at}
use zstack_ovn_kubernetes.Ovn.Service.{EndpointSlice, Endpoint, ipv4, cluster_ip_type}
use zstack_ovn_kubernetes.Ovn.Service.Ports.{Api, Service, ServicePort, State, not_there}
use zstack_ovn_kubernetes.Ovn.Service.Reconcile.{reconcile_service}
use zstack_ovn_kubernetes.Ovn.Service.Names.{cluster_lb}
use zstack_ovn_kubernetes.Base.{to_lower, join, contains_byte, decimal}
use zstack_ovn_kubernetes.Ovn.Subnets.{has_text}
use zstack_ovn_kubernetes.Ovn.Service.{track_load_balancer}
use zstack_ovn_kubernetes.Ovn.Examples.Balancers.{Rows, balancers, switches}

abbrev ready_pod : Endpoint
ready_pod = record {
  addresses = codes "10.244.1.5" ∷ [];
  ready = some true;
  serving = none;
  terminating = none;
  node_name = none;
  zone = none;
}

abbrev slices : List EndpointSlice
slices = record { address_type = ipv4; endpoints = ready_pod ∷ []; ports = [] } ∷ []

abbrev api : Api
api = record {
  get_service = λ namespace name. not_there;
  list_slices = λ namespace name. some slices;
  list_nodes = some [];
  list_subnets = some [];
}

abbrev http : ServicePort
http = record { protocol = codes "TCP"; port = 80; target_port = 8080; node_port = 0 }

abbrev https : ServicePort
https = record { protocol = codes "TCP"; port = 443; target_port = 8443; node_port = 0 }

abbrev web : Service
web = record {
  namespace = codes "default";
  name = codes "web";
  type = cluster_ip_type;
  cluster_ip = codes "10.96.0.10";
  external_traffic_policy = [];
  ports = http ∷ https ∷ [];
  deleting = false;
}

abbrev start : State Rows
start = record { db = []; service_lbs = [] }

-- The address of the first port is gone.
first_port_lost :
    vips_at (cluster_lb web (codes "tcp")) (reconcile_service balancers switches api web start).0.db
    ≡ some ((codes "10.96.0.10:443", codes "10.244.1.5:8443") ∷ [])
unfolding reconcile_service lookup text_eq to_lower insert track_load_balancer has_text join
    contains_byte decimal
first_port_lost = refl
