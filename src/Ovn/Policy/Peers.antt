-- ===== src/Ovn/Policy/Peers.antt =====
-- pkg/ovn/policy_controller.go: which peers a rule's match admits.
use zstack_ovn_kubernetes.Base.{◌≡◌, refl, List, [], ◌∷◌, none, Text, All}
use zstack_ovn_kubernetes.Ovn.Policy.{rule_match}
use zstack_ovn_kubernetes.Ovn.Policy.Match.{
  Side, ingress, egress, NetworkPolicyPeer, NetworkPolicyPort, get_peer_cidrs,
}

no_cidrs :
    (peers : List NetworkPolicyPeer)
    → All (λ p. p.ip_block ≡ none) peers
    → get_peer_cidrs peers ≡ []
unfolding get_peer_cidrs
no_cidrs [] h = refl
no_cidrs (p ∷ peers) h = rw h.0 (no_cidrs peers h.1)

-- A rule whose peers are all given by pod and namespace selectors has the match of the same rule
-- without peers, which admits traffic from or to everywhere, in both directions.
pub rule_match-selectors :
    (side : Side) (ips : List Text) (peers : List NetworkPolicyPeer)
    (ports : List NetworkPolicyPort)
    → All (λ p. p.ip_block ≡ none) peers
    → rule_match side ips (record { peers = peers; ports = ports })
      ≡ rule_match side ips (record { peers = []; ports = ports })
unfolding get_peer_cidrs
rule_match-selectors ingress ips peers ports h = rw (no_cidrs peers h) refl
rule_match-selectors egress ips peers ports h = rw (no_cidrs peers h) refl
