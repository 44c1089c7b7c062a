-- ===== src/Ovn/Service/Ports.antt =====
-- pkg/ovn/service_controller.go: a service and its ports, and the virtual addresses they ask for. The
-- answers of the Kubernetes API are a parameter, the same during one call; events are left out.
use zstack_ovn_kubernetes.Base.{
  ℕ, Bool, true, false, ◌&&◌, List, [], ◌∷◌, ◌++◌, Text, codes, Option, none, some, if◌then◌else◌,
  text_eq, is_empty, to_lower, ltb,
}
use zstack_ovn_kubernetes.Base.Dict.{Dict, lookup, insert}
use zstack_ovn_kubernetes.Ovndb.Errors.{Result, ok, Step}
use zstack_ovn_kubernetes.Ovndb.Vip.{build_vip}
use zstack_ovn_kubernetes.Ovndb.LoadBalancer.{LoadBalancer}
use zstack_ovn_kubernetes.Ovndb.Table.{entries}
use zstack_ovn_kubernetes.Ovn.Subnets.{Subnet}
use zstack_ovn_kubernetes.Ovn.Service.{
  EndpointSlice, Node, ServiceType, node_port_type, load_balancer_type, LbKind, cluster_ip_kind,
  node_port_kind, get_endpoints_for_service, build_load_balancer_name, get_node_ip_map,
  get_node_local_backends, cluster_vips, track_load_balancer, service_key,
}

-- `target_port` is TargetPort.IntValue().
pub record ServicePort : Type 0 where
  pub protocol : Text
  pub port : ℕ
  pub target_port : ℕ
  pub node_port : ℕ

pub record Service : Type 0 where
  pub namespace : Text
  pub name : Text
  pub type : ServiceType
  pub cluster_ip : Text
  pub external_traffic_policy : Text
  pub ports : List ServicePort
  pub deleting : Bool

pub data ServiceAnswer : Type 0 where
  service : Service → ServiceAnswer
  not_there : ServiceAnswer
  unreachable : ServiceAnswer

pub record Api : Type 0 where
  pub get_service : Text → Text → ServiceAnswer
  pub list_slices : Text → Text → Option (List EndpointSlice)
  pub list_nodes : Option (List Node)
  pub list_subnets : Option (List Subnet)

-- The database, and serviceLBs: the UUIDs of a service's load balancers by protocol.
pub record State (S : Type 0) : Type 0 where
  pub db : S
  pub service_lbs : Dict (Dict Text)

-- A lower-case protocol, tcp where none is given.
abbrev pub port_protocol : ServicePort → Text
port_protocol p = let q = to_lower p.protocol in if is_empty q then codes "tcp" else q

abbrev pub kind_text : LbKind → Text
kind_text cluster_ip_kind = codes "ClusterIP"
kind_text node_port_kind = codes "NodePort"

abbrev pub lb_words : LbKind → Text
lb_words cluster_ip_kind = codes "LB"
lb_words node_port_kind = codes "NodePort LB"

abbrev pub external_ids : Service → LbKind → Dict Text
external_ids svc kind =
    (codes "k8s.ovn.org/service", service_key svc.namespace svc.name)
    ∷ (codes "k8s.ovn.org/namespace", svc.namespace)
    ∷ (codes "k8s.ovn.org/kind", kind_text kind)
    ∷ (codes "k8s.ovn.org/owner", codes "service-controller")
    ∷ []

abbrev pub port_vip : Service → ServicePort → Text
port_vip svc p = build_vip svc.cluster_ip p.port

-- vips := map[string]string{}, with the address if there are backends.
abbrev pub single_vip : Text → Text → Dict Text
single_vip vip backends = if is_empty backends then [] else (vip, backends) ∷ []

abbrev pub is_local_policy : Service → Bool
is_local_policy svc = text_eq svc.external_traffic_policy (codes "Local")

-- The addresses of the nodes that have backends of their own.
unfoldable pub local_vips : Dict Text → ℕ → Dict Text → Dict Text
unfolding build_vip
local_vips [] port m = m
local_vips ((ip, backends) ∷ nodes) port m =
    local_vips nodes port (if is_empty backends then m else insert (build_vip ip port) backends m)

-- getNodeLocalBackends, none for an error of the API.
abbrev pub node_local_backends :
    Option (List EndpointSlice) → Option (List Node) → ℕ → Option (Dict Text)
node_local_backends none nodes target = none
node_local_backends (some slices) none target = none
node_local_backends (some slices) (some nodes) target =
    some
      (get_node_local_backends (get_node_ip_map nodes []) target (get_endpoints_for_service slices))

abbrev pub local_or_all : Option (Dict Text) → List Text → ℕ → Text → Dict Text
local_or_all none ips port backends = cluster_vips ips port backends []
local_or_all (some nodes) ips port backends = local_vips nodes port []

abbrev pub node_port_vips :
    Service → ServicePort → Text → List Text → Option (Dict Text) → Dict Text
node_port_vips svc p backends ips local_backends =
    if is_empty backends
    then []
    else if is_local_policy svc
    then local_or_all local_backends ips p.node_port backends
    else cluster_vips ips p.node_port backends []

abbrev pub node_port_options : Service → Dict Text
node_port_options svc = if is_local_policy svc then (codes "skip_snat", codes "true") ∷ [] else []

abbrev pub serves_nodes : ServiceType → Bool
serves_nodes node_port_type = true
serves_nodes load_balancer_type = true
serves_nodes type = false

-- An error that is only logged.
abbrev pub settled : {S A : Type 0} → S × Result A → S × Result Unit
settled (t, r) = (t, ok tt)

abbrev pub ignored : {S A : Type 0} → Step S A → Step S Unit
ignored m s = settled (m s)

abbrev pub in_state : {S A : Type 0} → Dict (Dict Text) → S × Result A → State S × Result A
in_state lbs (t, r) = (record { db = t; service_lbs = lbs }, r)

-- A step on the database only.
abbrev pub on_db : {S A : Type 0} → Step S A → Step (State S) A
on_db m st = in_state st.service_lbs (m st.db)

abbrev pub track : {S : Type 0} → Service → Text → Text → Step (State S) Unit
track svc key uuid st = (
  record st { service_lbs = track_load_balancer st.service_lbs svc.namespace svc.name key uuid },
  ok tt,
)

-- strings.HasSuffix with strings.TrimSuffix.
unfoldable pub strip_suffix : Text → Text → Option Text
strip_suffix suffix [] = if is_empty suffix then some [] else none
strip_suffix suffix (c ∷ s) =
    let rest = strip_suffix suffix s in
    if text_eq (c ∷ s) suffix then some [] else elim rest [ none ↦ none | some t ↦ some (c ∷ t) ]

abbrev pub stale_name : Service → Text → Text
stale_name svc key = elim (strip_suffix (codes "_nodeport") key) [
  | none ↦ build_load_balancer_name svc.namespace svc.name key cluster_ip_kind
  | some protocol ↦ build_load_balancer_name svc.namespace svc.name protocol node_port_kind
]

-- currentProtocols, as the list of its keys.
unfoldable pub current_protocols : ServiceType → List ServicePort → List Text
current_protocols type [] = []
current_protocols type (p ∷ ports) =
    port_protocol p
    ∷ ((if serves_nodes type && ltb 0 p.node_port
          then (port_protocol p ++ codes "_nodeport") ∷ []
          else [])
        ++ current_protocols type ports)

abbrev pub id_of : LoadBalancer → Text → Text
id_of lb key = elim (lookup key (entries lb.external_ids)) [ none ↦ [] | some v ↦ v ]

abbrev pub of_service : Text → Text → LoadBalancer → Bool
of_service namespace name lb =
    text_eq (id_of lb (codes "k8s.ovn.org/service")) (service_key namespace name)
    && text_eq (id_of lb (codes "k8s.ovn.org/owner")) (codes "service-controller")
