-- ===== src/Ovn/Examples.antt =====
-- Tests and concrete instances for pkg/ovn.
pub mod Services
pub mod Balancers
pub mod TwoPorts
pub mod Choices
pub mod Pods
pub mod SubnetObjects
pub mod Health
use zstack_ovn_kubernetes.Base.{
  ◌≡◌, refl, [], ◌∷◌, map, codes, none, some, pos, text_eq, join, decimal, decimal_fuel,
}
use zstack_ovn_kubernetes.Base.Dict.{lookup}
use zstack_ovn_kubernetes.Ovndb.Transact.{transact_and_check, transact_with_retry}
use zstack_ovn_kubernetes.Ovndb.Acl.{
  create_acl, delete_acls_by_policy, delete_ops, list_acls_by_policy, list_acls_with_predicate,
}
use zstack_ovn_kubernetes.Ovndb.Acl.Rows.{select_rows, one_of}
use zstack_ovn_kubernetes.Ovndb.Examples.{
  memory, memory_rows, effects, two_rows, Memory, memory_transact, distinct_rows, longest,
}
use zstack_ovn_kubernetes.Ovn.Policy.{
  NetworkPolicy, Cluster, found, reconcile_policy, get_pod_ips, create_policy_acl, create_peer_acls,
  create_rule_acls, create_side_acls, create_all_acls, process_network_policy, rule_match,
}
use zstack_ovn_kubernetes.Ovn.Policy.Match.{
  ingress, NetworkPolicyPeer, NetworkPolicyPort, int_val, build_policy_acl_name,
  build_ip_list_match, build_port_match, port_parts, convert_ingress_rule_to_acl_match,
  build_default_deny_match, get_peer_cidrs,
}
use zstack_ovn_kubernetes.Ovn.Policy.Peers.{rule_match-selectors}

abbrev pub block_peer : NetworkPolicyPeer
block_peer = record {
  pod_selector = none;
  namespace_selector = none;
  ip_block = some (record { cidr = codes "10.9.0.0/16"; except = [] });
}

abbrev selector_peer : NetworkPolicyPeer
selector_peer = record {
  pod_selector = some ((codes "app", codes "web") ∷ []);
  namespace_selector = none;
  ip_block = none;
}

abbrev pub web_port : NetworkPolicyPort
web_port = record { protocol = none; port = some (int_val (pos 80)); end_port = none }

abbrev pub web : NetworkPolicy
web = record {
  namespace = codes "default";
  name = codes "web";
  pod_selector = [];
  policy_types = codes "Ingress" ∷ [];
  ingress_rules = record { peers = block_peer ∷ []; ports = web_port ∷ [] } ∷ [];
  egress_rules = [];
}

abbrev pub cluster : Cluster
cluster = record {
  get_policy = λ namespace name. found web;
  get_selected_pods = λ p. some (codes "10.244.1.5" ∷ codes "" ∷ []);
}

after_web : Memory
unfolding reconcile_policy
after_web = (reconcile_policy memory cluster (codes "default") (codes "web") two_rows).0

-- The matches that Reconcile has written.
web_matches :
    map (λ a. a.match_expr) (memory_rows after_web)
    ≡ codes "ip4.dst == 10.244.1.5"
      ∷ codes "ip4.dst == 10.244.1.5"
      ∷ codes "ip4.dst == 10.244.1.5 && ip4.src == 10.9.0.0/16 && tcp.dst == 80"
      ∷ []
unfolding after_web reconcile_policy process_network_policy create_all_acls create_side_acls
    create_rule_acls create_peer_acls create_policy_acl create_acl delete_acls_by_policy
    list_acls_by_policy list_acls_with_predicate delete_ops transact_and_check transact_with_retry
    memory_transact effects distinct_rows select_rows one_of longest lookup text_eq get_pod_ips
    build_policy_acl_name build_ip_list_match build_port_match port_parts
    convert_ingress_rule_to_acl_match build_default_deny_match get_peer_cidrs join decimal
    decimal_fuel
web_matches = refl

rule_match-selectors_example :
    rule_match ingress
      (codes "10.244.1.5" ∷ [])
      (record { peers = selector_peer ∷ []; ports = web_port ∷ [] })
    ≡ rule_match ingress (codes "10.244.1.5" ∷ []) (record { peers = []; ports = web_port ∷ [] })
rule_match-selectors_example =
    rule_match-selectors ingress (codes "10.244.1.5" ∷ []) (selector_peer ∷ []) (web_port ∷ [])
      (refl, tt)
