-- ===== src/Ovn/Policy/Match.antt =====
-- pkg/ovn/policy_controller.go: the match expressions, names and priorities of a policy's ACLs.
use zstack_ovn_kubernetes.Base.{
  ℕ, zero, suc, ◌+◌, ◌-◌, ◌*◌, ◌%◌, ◌^◌, Bool, true, false, ◌&&◌, List, [], ◌∷◌, ◌++◌, map, Text,
  codes, Option, none, some, ℤ, pos, negsuc, if◌then◌else◌, ltb, leb, join, is_empty, to_lower,
  decimal_int,
}

pub data IntOrString : Type 0 where
  int_val : ℤ → IntOrString
  str_val : Text → IntOrString

pub record NetworkPolicyPort : Type 0 where
  pub protocol : Option Text
  pub port : Option IntOrString
  pub end_port : Option ℤ

pub record IpBlock : Type 0 where
  pub cidr : Text
  pub except : List Text

pub record NetworkPolicyPeer : Type 0 where
  pub pod_selector : Option (List (Text × Text))
  pub namespace_selector : Option (List (Text × Text))
  pub ip_block : Option IpBlock

-- A rule of either direction: its From or To, and its ports.
pub record Rule : Type 0 where
  pub peers : List NetworkPolicyPeer
  pub ports : List NetworkPolicyPort

pub data Side : Type 0 where
  ingress : Side
  egress : Side

abbrev pub side_text : Side → Text
side_text ingress = codes "Ingress"
side_text egress = codes "Egress"

-- strconv.Atoi, of which IntValue drops the error: the value is then 0, or the nearest int64.
abbrev digits_value : Option ℕ → Text → Option ℕ
digits_value acc [] = acc
digits_value acc (c ∷ s) =
    digits_value
      (if leb b'0' c && leb c b'9'
        then elim acc [ none ↦ none | some n ↦ some (n * 10 + (c - b'0')) ]
        else none)
      s

abbrev number : Text → Option ℕ
number s = if is_empty s then none else digits_value (some 0) s

abbrev negated : ℕ → ℤ
negated zero = pos 0
negated (suc n) = if ltb n (2 ^ 63) then negsuc n else negsuc (2 ^ 63 - 1)

abbrev positive : ℕ → ℤ
positive n = if ltb n (2 ^ 63) then pos n else pos (2 ^ 63 - 1)

abbrev int_of : (ℕ → ℤ) → Option ℕ → ℤ
int_of sign none = pos 0
int_of sign (some n) = sign n

abbrev pub atoi : Text → ℤ
atoi [] = pos 0
atoi (c ∷ s) =
    if text_sign c b'-'
    then int_of negated (number s)
    else if text_sign c b'+'
    then int_of positive (number s)
    else int_of positive (number (c ∷ s))
  where
    text_sign : ℕ → ℕ → Bool
    text_sign a b = leb a b && leb b a

abbrev pub int_value : IntOrString → ℤ
int_value (int_val n) = n
int_value (str_val s) = atoi s

-- int32(n).
abbrev signed32 : ℕ → ℤ
signed32 m = if ltb m (2 ^ 31) then pos m else negsuc (2 ^ 32 - 1 - m)

abbrev pub to_int32 : ℤ → ℤ
to_int32 (pos n) = signed32 (n % 2 ^ 32)
to_int32 (negsuc n) = signed32 (2 ^ 32 - 1 - n % 2 ^ 32)

abbrev pub less : ℤ → ℤ → Bool
less (pos a) (pos b) = ltb a b
less (pos a) (negsuc b) = false
less (negsuc a) (pos b) = true
less (negsuc a) (negsuc b) = ltb b a

-- "np_%s/%s_%s_%s".
unfoldable pub build_policy_acl_name : Text → Text → Text → Text → Text
build_policy_acl_name namespace policy direction index =
    codes "np_"
    ++ (namespace ++ (b'/' ∷ (policy ++ (b'_' ∷ (to_lower direction ++ (b'_' ∷ index))))))

abbrev pub get_acl_priority : Side → Bool → ℕ → ℕ
get_acl_priority ingress true rule = 1000
get_acl_priority egress true rule = 1000
get_acl_priority side false rule = 1001 + rule

abbrev pub get_acl_direction : Side → Text
get_acl_direction ingress = codes "to-lport"
get_acl_direction egress = codes "from-lport"

-- "%s == %s".
abbrev pub equals : Text → Text → Text
equals field value = field ++ (codes " == " ++ value)

-- Several alternatives in parentheses, one without.
abbrev pub alternatives : List Text → Text
alternatives [] = []
alternatives (p ∷ []) = p
alternatives (p ∷ q ∷ parts) = b'(' ∷ (join (p ∷ q ∷ parts) (codes " || ") ++ codes ")")

unfoldable pub build_ip_list_match : Text → List Text → Text
build_ip_list_match field ips = alternatives (map (equals field) ips)

abbrev pub protocol_text : Option Text → Text
protocol_text none = codes "tcp"
protocol_text (some p) = to_lower p

abbrev range_or_single : Text → ℤ → Option ℤ → Text
range_or_single protocol n none = protocol ++ (codes ".dst == " ++ decimal_int n)
range_or_single protocol n (some last) =
    if less (to_int32 n) last
    then protocol
      ++ (codes ".dst >= "
          ++ (decimal_int n
              ++ (codes " && " ++ (protocol ++ (codes ".dst <= " ++ decimal_int last)))))
    else protocol ++ (codes ".dst == " ++ decimal_int n)

-- The part of one port; a port with no number has none.
abbrev pub port_part : NetworkPolicyPort → Option Text
port_part p = elim p.port [
  | none ↦ none
  | some n ↦ some (range_or_single (protocol_text p.protocol) (int_value n) p.end_port)
]

abbrev pub add_part : Option Text → List Text → List Text
add_part none parts = parts
add_part (some p) parts = p ∷ parts

unfoldable pub port_parts : List NetworkPolicyPort → List Text
port_parts [] = []
port_parts (p ∷ ports) = add_part (port_part p) (port_parts ports)

unfoldable pub build_port_match : List NetworkPolicyPort → Text
unfolding port_parts
build_port_match ports = alternatives (port_parts ports)

-- A condition that is empty is left out.
abbrev pub add_condition : Text → List Text → List Text
add_condition c conditions = if is_empty c then conditions else c ∷ conditions

abbrev pub conjunction : Text → Text → Text → Text
conjunction a b c = join (add_condition a (add_condition b (add_condition c []))) (codes " && ")

unfoldable pub convert_ingress_rule_to_acl_match :
    List Text → List Text → List NetworkPolicyPort → Text
unfolding build_ip_list_match build_port_match
convert_ingress_rule_to_acl_match pods sources ports =
    conjunction (build_ip_list_match (codes "ip4.dst") pods)
      (build_ip_list_match (codes "ip4.src") sources) (build_port_match ports)

unfoldable pub convert_egress_rule_to_acl_match :
    List Text → List Text → List NetworkPolicyPort → Text
unfolding build_ip_list_match build_port_match
convert_egress_rule_to_acl_match pods dests ports =
    conjunction (build_ip_list_match (codes "ip4.src") pods)
      (build_ip_list_match (codes "ip4.dst") dests) (build_port_match ports)

unfoldable pub build_default_deny_match : List Text → Side → Text
unfolding build_ip_list_match
build_default_deny_match [] side = []
build_default_deny_match (ip ∷ ips) ingress = build_ip_list_match (codes "ip4.dst") (ip ∷ ips)
build_default_deny_match (ip ∷ ips) egress = build_ip_list_match (codes "ip4.src") (ip ∷ ips)

-- getIngressSourceCIDRs and getEgressDestCIDRs: only IP blocks count.
abbrev pub block_cidr : Option IpBlock → List Text → List Text
block_cidr none cidrs = cidrs
block_cidr (some b) cidrs = b.cidr ∷ cidrs

unfoldable pub get_peer_cidrs : List NetworkPolicyPeer → List Text
get_peer_cidrs [] = []
get_peer_cidrs (p ∷ peers) = block_cidr p.ip_block (get_peer_cidrs peers)

-- getIngressPeerCount and getEgressPeerCount.
abbrev pub get_peer_count : List NetworkPolicyPeer → ℕ
get_peer_count [] = 1
get_peer_count (p ∷ peers) = 1 + count peers
  where
    count : List NetworkPolicyPeer → ℕ
    count [] = 0
    count (q ∷ qs) = suc (count qs)
