-- ===== src/Ovn/Policy/Desired.antt =====
-- The ACLs that a NetworkPolicy asks for in pkg/ovn/policy_controller.go, as a list.
use zstack_ovn_kubernetes.Base.{
  ℕ, zero, suc, ◌+◌, List, [], ◌∷◌, ◌++◌, map, Text, codes, Option, none, some, pos, if◌then◌else◌,
  is_empty,
}
use zstack_ovn_kubernetes.Ovndb.Acl.{Acl, build_acl}
use zstack_ovn_kubernetes.Ovn.Policy.{
  NetworkPolicy, build_policy_external_ids, rule_index, rules_of, rule_match, side_of,
}
use zstack_ovn_kubernetes.Ovn.Policy.Match.{
  Rule, Side, side_text, build_policy_acl_name, get_acl_direction, build_default_deny_match,
  get_peer_count,
}

-- A row of a policy, with its UUID left open.
abbrev pub policy_row : NetworkPolicy → Side → Text → ℕ → Text → Text → Acl
policy_row p side index priority expr action =
    build_acl (some (build_policy_acl_name p.namespace p.name (side_text side) index))
      (get_acl_direction side) (pos priority) expr action
      (build_policy_external_ids p.namespace p.name side)

-- The rows with a match that is not empty.
abbrev pub unless_empty : Text → List Acl → List Acl
unless_empty expr rows = if is_empty expr then [] else rows

unfoldable pub numbers : ℕ → ℕ → List ℕ
numbers from zero = []
numbers from (suc n) = from ∷ numbers (suc from) n

abbrev pub deny_rows : NetworkPolicy → Side → List Text → List Acl
deny_rows p side ips =
    let expr = build_default_deny_match ips side in
    unless_empty expr (policy_row p side (codes "default") 1000 expr (codes "drop") ∷ [])

-- One "allow" row for each peer of a rule, and one for a rule without peers.
abbrev pub allow_row : NetworkPolicy → Side → ℕ → Text → ℕ → Acl
allow_row p side rule expr peer =
    policy_row p side (rule_index rule peer) (1001 + rule) expr (codes "allow")

abbrev pub peer_rows : NetworkPolicy → Side → ℕ → Text → ℕ → ℕ → List Acl
peer_rows p side rule expr from n =
    unless_empty expr (map (allow_row p side rule expr) (numbers from n))

unfoldable pub rule_rows : NetworkPolicy → Side → List Text → ℕ → List Rule → List Acl
rule_rows p side ips rule [] = []
rule_rows p side ips rule (r ∷ rules) =
    peer_rows p side rule (rule_match side ips r) 0 (get_peer_count r.peers)
    ++ rule_rows p side ips (suc rule) rules

abbrev pub side_rows : NetworkPolicy → List Text → Side → List Acl
side_rows p ips side = deny_rows p side ips ++ rule_rows p side ips 0 (rules_of side p)

abbrev pub type_rows : NetworkPolicy → List Text → Option Side → List Acl
type_rows p ips none = []
type_rows p ips (some side) = side_rows p ips side

-- For each of the policy's types, in their order: the default deny, then the rules.
unfoldable pub desired_rows : NetworkPolicy → List Text → List Text → List Acl
desired_rows p ips [] = []
desired_rows p ips (t ∷ types) = type_rows p ips (side_of t) ++ desired_rows p ips types
