-- ===== src/Ovn/Examples/Services.antt =====
-- Tests and concrete instances for pkg/ovn/service_controller.go and the texts of virtual addresses.
use zstack_ovn_kubernetes.Base.{
  ◌≡◌, refl, true, false, List, [], ◌∷◌, map, Text, codes, none, some, text_eq, if◌then◌else◌,
  contains_byte, has_prefix, join, decimal, decimal_fuel, All,
}
use zstack_ovn_kubernetes.Base.Dict.{Dict, lookup, insert}
use zstack_ovn_kubernetes.Ovndb.Vip.{
  build_vip, parse_vip, last_index, parse_backends, build_backends,
}
use zstack_ovn_kubernetes.Ovndb.PortName.{build_addresses}
use zstack_ovn_kubernetes.Ovndb.Vip.Roundtrip.{parse_vip-build_vip, CommaFree}
use zstack_ovn_kubernetes.Ovn.Service.{
  Endpoint, EndpointSlice, EndpointInfo, ipv4, get_endpoints_for_service, endpoint_infos,
  build_endpoint_backends, endpoint_vip, get_node_local_backends, group_by_node, join_all,
  endpoint_info,
}
use zstack_ovn_kubernetes.Ovn.Service.Endpoints.{
  listed, slices_offer, address_of, get_endpoints_for_service-listed,
  parse_backends-build_endpoint_backends,
}
use zstack_ovn_kubernetes.Ovn.Service.Nodes.{
  node_vips, text_or_nil, get_node_local_backends-node_vips,
}

six_accepted : (if contains_byte b':' (codes "fd00::5") then true else false) ≡ true
unfolding contains_byte
six_accepted = refl

parse_vip-build_vip_example :
    parse_vip (build_vip (codes "10.96.0.10") 80) ≡ some (codes "10.96.0.10", decimal 80)
parse_vip-build_vip_example =
    parse_vip-build_vip (codes "10.96.0.10") 80 (unfold contains_byte has_prefix in refl)

vip_six :
    (build_vip (codes "fd00::5") 80 ≡ codes "[fd00::5]:80")
    × (parse_vip (codes "[fd00::5]:80") ≡ some (codes "fd00::5", codes "80"))
unfolding build_vip parse_vip last_index contains_byte has_prefix decimal decimal_fuel
vip_six = (refl, refl)

-- Neither ready nor with a Serving condition.
abbrev unready : Endpoint
unready = record {
  addresses = codes "10.244.1.5" ∷ [];
  ready = some false;
  serving = none;
  terminating = none;
  node_name = some (codes "node1");
  zone = none;
}

abbrev slices : List EndpointSlice
slices = record { address_type = ipv4; endpoints = unready ∷ []; ports = [] } ∷ []

get_endpoints_for_service-listed_example :
    listed (codes "10.244.1.5") (map address_of (get_endpoints_for_service slices))
    ≡ slices_offer (codes "10.244.1.5") slices
get_endpoints_for_service-listed_example =
    get_endpoints_for_service-listed (codes "10.244.1.5") slices

-- An endpoint that is not ready gets traffic where Serving is not set.
unready_used : map address_of (get_endpoints_for_service slices) ≡ codes "10.244.1.5" ∷ []
unfolding get_endpoints_for_service endpoint_infos
unready_used = refl

abbrev infos : List EndpointInfo
infos = endpoint_info unready (codes "10.244.1.5") ∷ endpoint_info unready (codes "10.244.2.6") ∷ []

infos_free : All (λ e. CommaFree e.address) infos
unfolding contains_byte
infos_free = (refl, (refl, tt))

parse_backends-build_endpoint_backends_example :
    parse_backends (build_endpoint_backends infos 8080) ≡ map (endpoint_vip 8080) infos
parse_backends-build_endpoint_backends_example =
    parse_backends-build_endpoint_backends infos 8080 infos_free

abbrev node_ips : Dict Text
node_ips = (codes "node1", codes "192.168.1.1") ∷ []

get_node_local_backends-node_vips_example :
    text_or_nil (lookup (codes "192.168.1.1") (get_node_local_backends node_ips 8080 infos))
    ≡ build_backends (node_vips node_ips 8080 (codes "192.168.1.1") infos)
get_node_local_backends-node_vips_example =
    get_node_local_backends-node_vips node_ips 8080 infos (codes "192.168.1.1")

local_backends :
    get_node_local_backends node_ips 8080 infos
    ≡ (codes "192.168.1.1", codes "10.244.1.5:8080,10.244.2.6:8080") ∷ []
unfolding get_node_local_backends group_by_node join_all lookup insert text_eq build_vip
    contains_byte build_backends join decimal decimal_fuel
local_backends = refl

addresses :
    build_addresses (codes "0a:58") (codes "10.0.0.1" ∷ codes "fd00::1" ∷ [])
    ≡ codes "0a:58 10.0.0.1 fd00::1"
unfolding build_addresses join
addresses = refl
