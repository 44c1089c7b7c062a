-- ===== src/Ovn/Service.antt =====
-- pkg/ovn/service_controller.go: the endpoints, backends and virtual addresses of a Service, and the
-- tracked load balancers. What the Kubernetes API lists is an argument.
pub mod Endpoints
pub mod Nodes
pub mod Ports
pub mod Ensure
pub mod Reconcile
pub mod Quiet
pub mod Names
pub mod Written
pub mod LastPort
pub mod Reconciled
use zstack_ovn_kubernetes.Base.{
  ℕ, zero, suc, ◌+◌, Bool, true, false, not, ◌&&◌, ◌||◌, List, [], ◌∷◌, ◌++◌, map, Text, codes,
  Option, none, some, if◌then◌else◌, text_eq, is_empty, to_lower, ltb, ◌==◌,
}
use zstack_ovn_kubernetes.Base.Dict.{Dict, lookup, insert}
use zstack_ovn_kubernetes.Ovndb.Vip.{build_vip, build_backends}

pub data AddressType : Type 0 where
  ipv4 : AddressType
  ipv6 : AddressType
  fqdn : AddressType

-- A condition that is not set is none.
pub record Endpoint : Type 0 where
  pub addresses : List Text
  pub ready : Option Bool
  pub serving : Option Bool
  pub terminating : Option Bool
  pub node_name : Option Text
  pub zone : Option Text

pub record EndpointPort : Type 0 where
  pub name : Option Text
  pub port : Option ℕ

pub record EndpointSlice : Type 0 where
  pub address_type : AddressType
  pub endpoints : List Endpoint
  pub ports : List EndpointPort

pub record EndpointInfo : Type 0 where
  pub address : Text
  pub node_name : Text
  pub zone : Text
  pub target_port : ℕ
  pub ready : Bool
  pub serving : Bool
  pub terminating : Bool

pub data ServiceType : Type 0 where
  cluster_ip_type : ServiceType
  node_port_type : ServiceType
  load_balancer_type : ServiceType
  external_name_type : ServiceType

abbrev pub or_true : Option Bool → Bool
or_true none = true
or_true (some b) = b

abbrev pub or_false : Option Bool → Bool
or_false none = false
or_false (some b) = b

abbrev pub or_empty : Option Text → Text
or_empty none = []
or_empty (some t) = t

abbrev pub is_ready : Endpoint → Bool
is_ready e = or_true e.ready

abbrev pub is_serving : Endpoint → Bool
is_serving e = or_true e.serving

abbrev pub is_terminating : Endpoint → Bool
is_terminating e = or_false e.terminating

-- shouldManageService.
abbrev is_external_name : ServiceType → Bool
is_external_name external_name_type = true
is_external_name t = false

abbrev pub should_manage_service : ServiceType → Text → Bool
should_manage_service type cluster_ip =
    if is_external_name type
    then false
    else if is_empty cluster_ip || text_eq cluster_ip (codes "None")
    then false
    else true

abbrev pub endpoint_info : Endpoint → Text → EndpointInfo
endpoint_info e addr = record {
  address = addr;
  node_name = or_empty e.node_name;
  zone = or_empty e.zone;
  target_port = 0;
  ready = is_ready e;
  serving = is_serving e;
  terminating = is_terminating e;
}

-- The two `continue`s of the inner loop.
abbrev pub skipped : Endpoint → Bool
skipped e = if not (is_ready e) && not (is_serving e) then true else is_terminating e

unfoldable pub endpoint_infos : List Endpoint → List EndpointInfo
endpoint_infos [] = []
endpoint_infos (e ∷ es) =
    let rest = endpoint_infos es in
    if skipped e then rest else map (endpoint_info e) e.addresses ++ rest

abbrev pub supported : AddressType → Bool
supported ipv4 = true
supported ipv6 = true
supported fqdn = false

unfoldable pub get_endpoints_for_service : List EndpointSlice → List EndpointInfo
unfolding endpoint_infos
get_endpoints_for_service [] = []
get_endpoints_for_service (s ∷ slices) =
    let rest = get_endpoints_for_service slices in
    if supported s.address_type then endpoint_infos s.endpoints ++ rest else rest

-- getEndpointsForServicePort: the first port that matches by name or by number, or the first of all.
abbrev same_name : Option Text → Text → Bool
same_name none name = false
same_name (some n) name = not (is_empty name) && text_eq n name

unfoldable pub match_port : List EndpointPort → Text → ℕ → ℕ
match_port [] name target = 0
match_port (p ∷ ports) name target =
    let rest = match_port ports name target in
    elim p.port [
      | none ↦ rest
      | some n ↦ if same_name p.name name || (ltb 0 target && (n == target)) then n else rest
    ]

abbrev first_port : List EndpointPort → ℕ
first_port [] = 0
first_port (p ∷ ports) = elim p.port [ none ↦ 0 | some n ↦ n ]

abbrev pub slice_port : List EndpointPort → Text → ℕ → ℕ
slice_port ports name target =
    let n = match_port ports name target in if n == 0 then first_port ports else n

abbrev pub port_info : Endpoint → ℕ → Text → EndpointInfo
port_info e n addr = record {
  address = addr;
  node_name = or_empty e.node_name;
  zone = [];
  target_port = n;
  ready = is_ready e;
  serving = false;
  terminating = false;
}

unfoldable pub port_infos : ℕ → List Endpoint → List EndpointInfo
port_infos n [] = []
port_infos n (e ∷ es) =
    let rest = port_infos n es in
    if not (is_ready e) || is_terminating e then rest else map (port_info e n) e.addresses ++ rest

unfoldable pub get_endpoints_for_service_port : List EndpointSlice → Text → ℕ → List EndpointInfo
unfolding match_port port_infos
get_endpoints_for_service_port [] name target = []
get_endpoints_for_service_port (s ∷ slices) name target =
    port_infos (slice_port s.ports name target) s.endpoints
    ++ get_endpoints_for_service_port slices name target

-- buildBackends, and BuildBackendString on bare addresses; the join of no backends is empty.
abbrev pub endpoint_vip : ℕ → EndpointInfo → Text
endpoint_vip target e = build_vip e.address target

unfoldable pub build_endpoint_backends : List EndpointInfo → ℕ → Text
unfolding build_backends build_vip
build_endpoint_backends endpoints target = build_backends (map (endpoint_vip target) endpoints)

-- buildLoadBalancerName.
pub data LbKind : Type 0 where
  cluster_ip_kind : LbKind
  node_port_kind : LbKind

unfoldable pub build_load_balancer_name : Text → Text → Text → LbKind → Text
build_load_balancer_name namespace name protocol node_port_kind =
    codes "Service_" ++ (namespace ++ (b'/' ∷ (name ++ (b'_' ∷ (protocol ++ codes "_nodeport")))))
build_load_balancer_name namespace name protocol cluster_ip_kind =
    codes "Service_" ++ (namespace ++ (b'/' ∷ (name ++ (b'_' ∷ protocol))))

pub record NodeAddress : Type 0 where
  pub type : Text
  pub address : Text

pub record Node : Type 0 where
  pub name : Text
  pub addresses : List NodeAddress

-- The first address of type InternalIP, after which the loop breaks.
unfoldable pub internal_ip : List NodeAddress → Option Text
internal_ip [] = none
internal_ip (a ∷ addresses) =
    let rest = internal_ip addresses in
    if text_eq a.type (codes "InternalIP") then some a.address else rest

unfoldable pub get_node_ip_map : List Node → Dict Text → Dict Text
unfolding internal_ip
get_node_ip_map [] m = m
get_node_ip_map (n ∷ nodes) m =
    get_node_ip_map nodes
      (elim (internal_ip n.addresses) [ none ↦ m | some ip ↦ insert n.name ip m ])

unfoldable pub get_node_ips : List Node → List Text
unfolding internal_ip
get_node_ips [] = []
get_node_ips (n ∷ nodes) =
    let rest = get_node_ips nodes in
    elim (internal_ip n.addresses) [ none ↦ rest | some ip ↦ ip ∷ rest ]

abbrev pub or_nil : Option (List Text) → List Text
or_nil none = []
or_nil (some l) = l

-- The node of an endpoint, with none where it is unnamed or unknown.
abbrev pub node_of : Dict Text → EndpointInfo → Option Text
node_of node_ips e = if is_empty e.node_name then none else lookup e.node_name node_ips

-- nodeEndpoints[nodeIP] = append(nodeEndpoints[nodeIP], backend), for one endpoint.
abbrev pub add_backend : Option Text → Text → Dict (List Text) → Dict (List Text)
add_backend none backend m = m
add_backend (some ip) backend m = insert ip (or_nil (lookup ip m) ++ backend ∷ []) m

unfoldable pub group_by_node :
    Dict Text → ℕ → List EndpointInfo → Dict (List Text) → Dict (List Text)
unfolding build_vip
group_by_node node_ips target [] m = m
group_by_node node_ips target (e ∷ endpoints) m =
    group_by_node node_ips target endpoints
      (add_backend (node_of node_ips e) (build_vip e.address target) m)

unfoldable pub join_all : Dict (List Text) → Dict Text
unfolding build_backends
join_all [] = []
join_all ((ip, backends) ∷ m) = (ip, build_backends backends) ∷ join_all m

unfoldable pub get_node_local_backends : Dict Text → ℕ → List EndpointInfo → Dict Text
unfolding group_by_node join_all
get_node_local_backends node_ips target endpoints =
    join_all (group_by_node node_ips target endpoints [])

-- The virtual addresses of a NodePort under the Cluster policy: every node has all backends.
unfoldable pub cluster_vips : List Text → ℕ → Text → Dict Text → Dict Text
unfolding build_vip
cluster_vips [] port backends m = m
cluster_vips (ip ∷ ips) port backends m =
    cluster_vips ips port backends (insert (build_vip ip port) backends m)

-- trackLoadBalancer: the UUIDs of a service by protocol.
abbrev pub dict_or_nil : Option (Dict Text) → Dict Text
dict_or_nil none = []
dict_or_nil (some m) = m

abbrev pub service_key : Text → Text → Text
service_key namespace name = namespace ++ (b'/' ∷ name)

unfoldable pub track_load_balancer : Dict (Dict Text) → Text → Text → Text → Text → Dict (Dict Text)
track_load_balancer lbs namespace name protocol uuid =
    let key = service_key namespace name in
    insert key (insert protocol uuid (dict_or_nil (lookup key lbs))) lbs

-- getTrackedLoadBalancers: a copy, which a map without aliasing is itself.
abbrev pub get_tracked_load_balancers : Dict (Dict Text) → Text → Text → Option (Dict Text)
get_tracked_load_balancers lbs namespace name = lookup (service_key namespace name) lbs

-- endpointSliceToService: the namespace and the service's label.
abbrev pub endpoint_slice_to_service : Text → Dict Text → List (Text × Text)
endpoint_slice_to_service namespace labels =
    elim (lookup (codes "kubernetes.io/service-name") labels) [
      | none ↦ []
      | some name ↦ (namespace, name) ∷ []
    ]
