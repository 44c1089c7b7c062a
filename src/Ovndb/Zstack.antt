-- ===== src/Ovndb/Zstack.antt =====
-- pkg/ovndb/zstack.go: which switches ZStack or this program manages, and the operations that mind it.
pub mod Guarded
use zstack_ovn_kubernetes.Base.{
  is_some, ℕ, ◌≡◌, refl, arith, Bool, true, false, not, List, [], ◌∷◌, ◌++◌, Text, codes, Option,
  none, some, if◌then◌else◌, text_eq, text_eq_iff, has_prefix, length, decimal, Bool-cases, inl,
  inr,
}
use zstack_ovn_kubernetes.Base.Dict.{Dict, lookup, insert}
use zstack_ovn_kubernetes.Ovndb.Errors.{
  Result, ok, err, Step, ◌>>=◌, is_not_found, wrapped, operation_failed, wrap_result,
}
use zstack_ovn_kubernetes.Ovndb.Table.{entries}
use zstack_ovn_kubernetes.Ovndb.LogicalSwitch.{
  LogicalSwitch, SwitchClient, get_logical_switch, list_logical_switches, update_logical_switch,
  create_logical_switch, delete_logical_switch,
}

abbrev text_or_empty : Option Text → Text
text_or_empty none = []
text_or_empty (some t) = t

-- Both markers have this key.
abbrev pub managed_by_key : Text
managed_by_key = codes "zstack.io/managed-by"

abbrev pub vpc_key : Text
vpc_key = codes "zstack.io/vpc-uuid"

abbrev pub subnet_key : Text
subnet_key = codes "zstack.io/subnet-uuid"

abbrev pub network_key : Text
network_key = codes "zstack.io/network-uuid"

abbrev pub has_zstack_id : Dict Text → Bool
has_zstack_id ids =
    if is_some (lookup vpc_key ids)
    then true
    else if is_some (lookup subnet_key ids)
    then true
    else is_some (lookup network_key ids)

abbrev pub zstack_marked : Dict Text → Option Text → Bool
zstack_marked ids (some managed_by) = text_eq managed_by (codes "zstack")
zstack_marked ids none = has_zstack_id ids

abbrev pub our_marked : Option Text → Bool
our_marked none = false
our_marked (some managed_by) = text_eq managed_by (codes "zstack-ovn-kubernetes")

-- The argument is not nil.
unfoldable pub is_zstack_managed : LogicalSwitch → Bool
is_zstack_managed ls =
    zstack_marked (entries ls.external_ids) (lookup managed_by_key (entries ls.external_ids))

unfoldable pub is_our_managed : LogicalSwitch → Bool
is_our_managed ls = our_marked (lookup managed_by_key (entries ls.external_ids))

unfoldable pub keep : (LogicalSwitch → Bool) → List LogicalSwitch → List LogicalSwitch
keep p [] = []
keep p (ls ∷ rest) = let kept = keep p rest in if p ls then ls ∷ kept else kept

-- A warning about the switch of a name.
pub data Warning : Type 0 where
  both_markers : Text → Warning
  subnet_prefix : Text → Warning

abbrev pub Names : Type 0
Names = Dict (Unit {0})

unfoldable pub names_of : (LogicalSwitch → Bool) → List LogicalSwitch → Names → Names
names_of p [] names = names
names_of p (ls ∷ rest) names = names_of p rest (if p ls then insert ls.name tt names else names)

unfoldable pub marker_warnings : Names → Names → List Warning
marker_warnings [] zstack = []
marker_warnings ((n, u) ∷ ours) zstack =
    let rest = marker_warnings ours zstack in
    if is_some (lookup n zstack) then both_markers n ∷ rest else rest

unfoldable pub prefix_warnings : Names → List Warning
prefix_warnings [] = []
prefix_warnings ((n, u) ∷ zstack) =
    let rest = prefix_warnings zstack in
    if has_prefix n (codes "subnet-") then subnet_prefix n ∷ rest else rest

-- ExternalIDs[k] = v for every pair.
unfoldable pub put_all : Dict Text → Dict Text → Dict Text
put_all [] m = m
put_all ((k, v) ∷ ids) m = put_all ids (insert k v m)

abbrev pub our_ids : Dict Text → Dict Text
our_ids ids = insert managed_by_key (codes "zstack-ovn-kubernetes") ids

pub record LogicalSwitchInfo : Type 0 where
  pub name : Text
  pub uuid : Text
  pub is_zstack : Bool
  pub is_ours : Bool
  pub other_config : Option (Dict Text)
  pub external_ids : Option (Dict Text)
  pub port_count : ℕ
  pub acl_count : ℕ
  pub lb_count : ℕ
  pub zstack_vpc_id : Text
  pub zstack_subnet_id : Text
  pub zstack_network_id : Text

abbrev pub id_if : Bool → Text → Option (Dict Text) → Text
id_if false key ids = []
id_if true key ids = text_or_empty (lookup key (entries ids))

abbrev pub info_of : LogicalSwitch → LogicalSwitchInfo
info_of ls = record {
  name = ls.name;
  uuid = ls.uuid;
  is_zstack = is_zstack_managed ls;
  is_ours = is_our_managed ls;
  other_config = ls.other_config;
  external_ids = ls.external_ids;
  port_count = length ls.ports;
  acl_count = length ls.acls;
  lb_count = length ls.load_balancer;
  zstack_vpc_id = id_if (is_zstack_managed ls) vpc_key ls.external_ids;
  zstack_subnet_id = id_if (is_zstack_managed ls) subnet_key ls.external_ids;
  zstack_network_id = id_if (is_zstack_managed ls) network_key ls.external_ids;
}

-- LogicalSwitchInfo.String.
abbrev managed_by : LogicalSwitchInfo → Text
managed_by i =
    if i.is_zstack
    then codes "ZStack"
    else if i.is_ours
    then codes "zstack-ovn-kubernetes"
    else codes "unmanaged"

unfoldable pub info_text : LogicalSwitchInfo → Text
unfolding decimal
info_text i =
    codes "LogicalSwitch{name="
    ++ i.name
    ++ codes ", uuid="
    ++ i.uuid
    ++ codes ", managedBy="
    ++ managed_by i
    ++ codes ", ports="
    ++ decimal i.port_count
    ++ codes ", acls="
    ++ decimal i.acl_count
    ++ codes ", lbs="
    ++ decimal i.lb_count
    ++ codes "}"

-- The two markers are values of one key, so no switch has both.
is_zstack_managed-is_our_managed :
    (ls : LogicalSwitch) → is_our_managed ls ≡ true → is_zstack_managed ls ≡ false
unfolding is_our_managed is_zstack_managed text_eq
is_zstack_managed-is_our_managed ls e = by_value (lookup managed_by_key (entries ls.external_ids)) e
  where
    by_value :
        (v : Option Text) → our_marked v ≡ true → zstack_marked (entries ls.external_ids) v ≡ false
    by_value none e = absurd cc
    by_value (some t) e = other ((text_eq_iff t (codes "zstack-ovn-kubernetes")).0 e)
      where
        other : t ≡ codes "zstack-ovn-kubernetes" → text_eq t (codes "zstack") ≡ false
        other h = rw h refl
