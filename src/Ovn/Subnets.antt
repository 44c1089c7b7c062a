-- ===== src/Ovn/Subnets.antt =====
-- pkg/ovn/pod_controller.go: findSubnetForPod; pkg/ovn/subnet_controller.go: ensureIPAllocator,
-- mapsEqual and updateCondition; api/v1/subnet_types.go: the helpers of Subnet. Reads from the
-- Kubernetes API are arguments.
pub mod Choice
pub mod Allocators
pub mod Status
pub mod Switch
pub mod Reconcile
pub mod Untouched
pub mod Ready
use zstack_ovn_kubernetes.Base.{
  ℕ, Bool, true, false, not, ◌&&◌, ◌||◌, List, [], ◌∷◌, ◌++◌, Text, codes, Option, none, some,
  if◌then◌else◌, text_eq, is_empty, ltb, length, ◌==◌,
}
use zstack_ovn_kubernetes.Base.Dict.{Dict, lookup, insert}
use zstack_ovn_kubernetes.Allocator.Subnet.{SubnetAllocator}
use zstack_ovn_kubernetes.Allocator.Subnet.Errors.{Outcome, ok, err, panic, running, ◌>>=◌}
use zstack_ovn_kubernetes.Allocator.Subnet.Exclude.{new_subnet_allocator}

-- The fields of a Subnet that the code reads.
pub record Subnet : Type 0 where
  pub name : Text
  pub phase : Text
  pub cidr : Text
  pub gateway : Text
  pub exclude_ips : List Text
  pub namespaces : List Text
  pub is_default : Bool
  pub external_logical_switch : Text
  pub vlan_id : ℕ
  pub provider : Text

abbrev pub is_external_mode : Subnet → Bool
is_external_mode s = not (is_empty s.external_logical_switch)

abbrev pub is_underlay_mode : Subnet → Bool
is_underlay_mode s = ltb 0 s.vlan_id || not (is_empty s.provider)

abbrev pub get_logical_switch_name : Subnet → Text
get_logical_switch_name s =
    if is_external_mode s then s.external_logical_switch else codes "subnet-" ++ s.name

abbrev pub is_active : Subnet → Bool
is_active s = text_eq s.phase (codes "Active")

unfoldable pub has_text : List Text → Text → Bool
has_text [] t = false
has_text (u ∷ us) t = text_eq u t || has_text us t

pub data Selection : Type 0 where
  chosen : Subnet → Selection
  no_subnet : Selection
  not_found : Text → Selection
  not_active : Text → Selection
  list_failed : Selection

-- The loop over all subnets: the first active one of the namespace, or else the last active default.
unfoldable pub pick_subnet : Text → Option Subnet → List Subnet → Option Subnet × Option Subnet
unfolding has_text
pick_subnet ns fallback [] = (none, fallback)
pick_subnet ns fallback (s ∷ subnets) = elim (is_active s) [
  | false ↦ pick_subnet ns fallback subnets
  | true ↦ elim (has_text s.namespaces ns) [
    | true ↦ (some s, fallback)
    | false ↦ pick_subnet ns (if s.is_default then some s else fallback) subnets
  ]
]

unfoldable pub first_active : List Subnet → Selection
first_active [] = no_subnet
first_active (s ∷ subnets) =
    let rest = first_active subnets in if is_active s then chosen s else rest

abbrev pub from_pick : List Subnet → Option Subnet × Option Subnet → Selection
from_pick subnets (some s, fallback) = chosen s
from_pick subnets (none, some s) = chosen s
from_pick subnets (none, none) = first_active subnets

abbrev pub select_listed : Text → Option (List Subnet) → Selection
select_listed ns none = list_failed
select_listed ns (some subnets) = from_pick subnets (pick_subnet ns none subnets)

abbrev pub select_named : Text → Option Subnet → Selection
select_named name none = not_found name
select_named name (some s) = if is_active s then chosen s else not_active name

-- The pod's annotations (none for a nil map), its namespace, and what Get and List answer.
abbrev pub select_annotated :
    Text → (Text → Option Subnet) → Option (List Subnet) → Option Text → Selection
select_annotated ns get listed none = select_listed ns listed
select_annotated ns get listed (some name) =
    if is_empty name then select_listed ns listed else select_named name (get name)

unfoldable pub find_subnet_for_pod :
    Dict Text → Text → (Text → Option Subnet) → Option (List Subnet) → Selection
unfolding pick_subnet first_active
find_subnet_for_pod annotations ns get listed =
    select_annotated ns get listed (lookup (codes "zstack.io/subnet") annotations)

-- ensureIPAllocator: the gateway is excluded too.
abbrev pub all_excludes : Subnet → List Text
all_excludes s =
    if has_text s.exclude_ips s.gateway then s.exclude_ips else s.exclude_ips ++ s.gateway ∷ []

abbrev pub add_allocator :
    ℕ → Subnet → Dict SubnetAllocator → Option SubnetAllocator → Outcome (Dict SubnetAllocator)
add_allocator rounds s allocators (some a) = ok allocators
add_allocator rounds s allocators none = do
  a ← new_subnet_allocator rounds s.cidr (all_excludes s)
  ok (insert s.name a allocators)

unfoldable pub ensure_ip_allocator :
    ℕ → Subnet → Dict SubnetAllocator → Outcome (Dict SubnetAllocator)
unfolding has_text
ensure_ip_allocator rounds s allocators =
    add_allocator rounds s allocators (lookup s.name allocators)

-- mapsEqual: a missing key reads as the empty text.
abbrev pub text_at : Dict Text → Text → Text
text_at m k = elim (lookup k m) [ none ↦ [] | some t ↦ t ]

unfoldable pub entries_match : Dict Text → Dict Text → Bool
entries_match [] b = true
entries_match ((k, v) ∷ a) b = text_eq (text_at b k) v && entries_match a b

unfoldable pub maps_equal : Dict Text → Dict Text → Bool
unfolding entries_match
maps_equal a b = (length a == length b) && entries_match a b

pub record Condition : Type 0 where
  pub type : Text
  pub status : Text
  pub reason : Text
  pub message : Text
  pub last_transition_time : ℕ

-- updateCondition: the time is kept where the status stays, and is the present where it changes.
abbrev pub replaced_condition : ℕ → Condition → Condition → Condition
replaced_condition now old new = record new {
  last_transition_time = if text_eq old.status new.status then old.last_transition_time else now;
}

unfoldable pub update_condition : ℕ → List Condition → Condition → List Condition
update_condition now [] new = new ∷ []
update_condition now (c ∷ conditions) new =
    let rest = update_condition now conditions new in
    if text_eq c.type new.type then replaced_condition now c new ∷ conditions else c ∷ rest
