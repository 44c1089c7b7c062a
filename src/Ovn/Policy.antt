-- ===== src/Ovn/Policy.antt =====
-- pkg/ovn/policy_controller.go: Reconcile, which replaces the ACLs of a NetworkPolicy. Reads from the
-- Kubernetes API are parameters; the state is the northbound database.
pub mod Match
pub mod Desired
pub mod Appended
pub mod Reconcile
pub mod Owned
pub mod Peers
pub mod Success
use zstack_ovn_kubernetes.Base.{
  ℕ, zero, suc, ◌+◌, ◌≡◌, refl, Bool, true, false, List, [], ◌∷◌, ◌++◌, Text, codes, Option, none,
  some, pos, if◌then◌else◌, is_empty, decimal, text_eq,
}
use zstack_ovn_kubernetes.Base.Dict.{Dict}
use zstack_ovn_kubernetes.Ovndb.Errors.{
  Result, ok, err, Step, done, fail, ◌>>=◌, follow, wrap, Error, kubernetes_error, wrapped,
}
use zstack_ovn_kubernetes.Ovndb.Acl.{Acl, NbClient, create_acl, delete_acls_by_policy, policy_ref}
use zstack_ovn_kubernetes.Ovn.Policy.Match.{
  Rule, Side, ingress, egress, side_text, build_policy_acl_name, get_acl_priority,
  get_acl_direction, convert_ingress_rule_to_acl_match, convert_egress_rule_to_acl_match,
  build_default_deny_match, get_peer_cidrs, get_peer_count,
}

pub record NetworkPolicy : Type 0 where
  pub namespace : Text
  pub name : Text
  pub pod_selector : Dict Text
  pub policy_types : List Text
  pub ingress_rules : List Rule
  pub egress_rules : List Rule

-- What r.Get answers for a policy.
pub data Lookup : Type 0 where
  found : NetworkPolicy → Lookup
  absent : Lookup
  unreadable : Lookup

-- The Kubernetes API: the policy of a name, and the Status.PodIP of the pods that a policy selects, or
-- none where the selector is invalid or the list fails.
pub record Cluster : Type 0 where
  pub get_policy : Text → Text → Lookup
  pub get_selected_pods : NetworkPolicy → Option (List Text)

-- getPodIPs.
unfoldable pub get_pod_ips : List Text → List Text
get_pod_ips [] = []
get_pod_ips (ip ∷ pods) = let rest = get_pod_ips pods in if is_empty ip then rest else ip ∷ rest

-- buildPolicyExternalIDs.
abbrev pub build_policy_external_ids : Text → Text → Side → Dict Text
build_policy_external_ids namespace name side =
    (codes "k8s.ovn.org/policy", policy_ref namespace name)
    ∷ (codes "k8s.ovn.org/namespace", namespace)
    ∷ (codes "k8s.ovn.org/direction", side_text side)
    ∷ []

-- fmt.Sprintf("%d_%d", ruleIdx, peerIdx).
abbrev pub rule_index : ℕ → ℕ → Text
rule_index rule peer = decimal rule ++ (b'_' ∷ decimal peer)

abbrev pub deny_message : Side → Text
deny_message ingress = codes "failed to create default deny ingress ACL"
deny_message egress = codes "failed to create default deny egress ACL"

abbrev pub allow_message : Side → Text
allow_message ingress = codes "failed to create ingress allow ACL"
allow_message egress = codes "failed to create egress allow ACL"

abbrev pub rules_of : Side → NetworkPolicy → List Rule
rules_of ingress p = p.ingress_rules
rules_of egress p = p.egress_rules

abbrev pub rule_match : Side → List Text → Rule → Text
rule_match ingress ips r = convert_ingress_rule_to_acl_match ips (get_peer_cidrs r.peers) r.ports
rule_match egress ips r = convert_egress_rule_to_acl_match ips (get_peer_cidrs r.peers) r.ports

-- The policy types that the switch names; another text is passed over.
abbrev pub side_of : Text → Option Side
side_of t =
    if text_eq t (codes "Ingress")
    then some ingress
    else if text_eq t (codes "Egress")
    then some egress
    else none

module _ {S Op : Type 0} (nb : NbClient S Op) where
  abbrev ignore_row : Text → Step S Acl → Step S Unit
  ignore_row message m = wrap message m >>= λ a. done tt

  -- CreateACL for a policy; the match decides whether there is an ACL at all.
  unfoldable pub create_policy_acl :
      Text → NetworkPolicy → Side → Text → ℕ → Text → Text → Step S Unit
  create_policy_acl message p side index priority expr action =
      if is_empty expr
      then done tt
      else ignore_row message (
          create_acl nb (some (build_policy_acl_name p.namespace p.name (side_text side) index))
            (get_acl_direction side) (pos priority) expr action
            (build_policy_external_ids p.namespace p.name side))

  -- for peerIdx := 0; peerIdx < peerCount; peerIdx++ { … }, from a peer on, for a number of peers.
  unfoldable pub create_peer_acls : NetworkPolicy → Side → ℕ → Text → ℕ → ℕ → Step S Unit
  unfolding create_policy_acl
  create_peer_acls p side rule expr peer zero = done tt
  create_peer_acls p side rule expr peer (suc n) =
      create_policy_acl (allow_message side) p side (rule_index rule peer)
        (get_acl_priority side false rule) expr (codes "allow")
      >>= λ x. create_peer_acls p side rule expr (suc peer) n

  -- for ruleIdx, rule := range rules { … }, from a rule on.
  unfoldable pub create_rule_acls : NetworkPolicy → Side → List Text → ℕ → List Rule → Step S Unit
  unfolding create_peer_acls
  create_rule_acls p side ips rule [] = done tt
  create_rule_acls p side ips rule (r ∷ rules) =
      create_peer_acls p side rule (rule_match side ips r) 0 (get_peer_count r.peers) >>= λ x.
      create_rule_acls p side ips (suc rule) rules

  unfoldable pub create_side_acls : NetworkPolicy → Side → List Text → Step S Unit
  unfolding create_policy_acl create_rule_acls build_default_deny_match
  create_side_acls p side ips =
      create_policy_acl (deny_message side) p side (codes "default") (get_acl_priority side true 0)
        (build_default_deny_match ips side) (codes "drop")
      >>= λ x. create_rule_acls p side ips 0 (rules_of side p)

  abbrev pub create_ingress_acls : NetworkPolicy → List Text → Step S Unit
  create_ingress_acls p ips = create_side_acls p ingress ips

  abbrev pub create_egress_acls : NetworkPolicy → List Text → Step S Unit
  create_egress_acls p ips = create_side_acls p egress ips

  abbrev pub create_type_acls : NetworkPolicy → List Text → Option Side → Step S Unit
  create_type_acls p ips none = done tt
  create_type_acls p ips (some ingress) =
      wrap (codes "failed to create ingress ACLs") (create_ingress_acls p ips)
  create_type_acls p ips (some egress) =
      wrap (codes "failed to create egress ACLs") (create_egress_acls p ips)

  unfoldable pub create_all_acls : NetworkPolicy → List Text → List Text → Step S Unit
  unfolding create_side_acls
  create_all_acls p ips [] = done tt
  create_all_acls p ips (t ∷ types) =
      create_type_acls p ips (side_of t) >>= λ x. create_all_acls p ips types

  -- cleanupACLs.
  abbrev pub cleanup_acls : Text → Text → Step S Unit
  cleanup_acls namespace name =
      wrap (codes "failed to delete ACLs") (delete_acls_by_policy nb namespace name)

  abbrev pub process_selected : NetworkPolicy → Option (List Text) → Step S Unit
  process_selected p none = fail (wrapped (codes "failed to get selected pods") kubernetes_error)
  process_selected p (some []) = done tt
  process_selected p (some (pod ∷ pods)) =
      wrap (codes "failed to cleanup existing ACLs") (cleanup_acls p.namespace p.name) >>= λ x.
      create_all_acls p (get_pod_ips (pod ∷ pods)) p.policy_types

  unfoldable pub process_network_policy : Cluster → NetworkPolicy → Step S Unit
  unfolding create_all_acls get_pod_ips
  process_network_policy cluster p = process_selected p (cluster.get_selected_pods p)

  abbrev reconcile_found : Cluster → Text → Text → Lookup → Step S Unit
  reconcile_found cluster namespace name (found p) = process_network_policy cluster p
  reconcile_found cluster namespace name absent = cleanup_acls namespace name
  reconcile_found cluster namespace name unreadable = fail kubernetes_error

  unfoldable pub reconcile_policy : Cluster → Text → Text → Step S Unit
  unfolding process_network_policy
  reconcile_policy cluster namespace name =
      reconcile_found cluster namespace name (cluster.get_policy namespace name)
