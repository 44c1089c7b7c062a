-- ===== src/Ovn/Examples/Choices.antt =====
-- Tests and concrete instances for the choice of subnets and their allocators in pkg/ovn.
use zstack_ovn_kubernetes.Base.{
  ◌++◌, ◌≡◌, refl, true, false, List, [], ◌∷◌, codes, Option, none, some, text_eq, Bool-cases, inl,
  inr, subst,
}
use zstack_ovn_kubernetes.Base.Dict.{lookup}
use zstack_ovn_kubernetes.Net.Ip.{mapped_prefix}
use zstack_ovn_kubernetes.Allocator.Subnet.{SubnetAllocator}
use zstack_ovn_kubernetes.Allocator.Subnet.Valid.{IsValid}
use zstack_ovn_kubernetes.Allocator.Examples.{small, small_net, small-IsValid, parse_small}
use zstack_ovn_kubernetes.Ovn.Subnets.{
  Subnet, chosen, find_subnet_for_pod, pick_subnet, has_text, ensure_ip_allocator, maps_equal,
  entries_match,
}
use zstack_ovn_kubernetes.Ovn.Subnets.Choice.{
  SelectionOutcome, find_subnet_for_pod-SelectionOutcome,
}
use zstack_ovn_kubernetes.Ovn.Subnets.Allocators.{
  AllValid, EnsuredOutcome, ensure_ip_allocator-EnsuredOutcome,
}

abbrev web_subnet : Subnet
web_subnet = record {
  name = codes "web";
  phase = codes "Active";
  cidr = codes "10.244.1.11/29";
  gateway = codes "10.244.1.9";
  exclude_ips = [];
  namespaces = codes "web" ∷ [];
  is_default = false;
  external_logical_switch = [];
  vlan_id = 0;
  provider = [];
}

abbrev default_subnet : Subnet
default_subnet = record web_subnet { name = codes "default"; namespaces = []; is_default = true }

abbrev subnets : List Subnet
subnets = default_subnet ∷ web_subnet ∷ []

find_subnet_for_pod-SelectionOutcome_example :
    SelectionOutcome
      (codes "web")
      (λ n. none)
      (some subnets)
      (lookup (codes "zstack.io/subnet") [])
      (find_subnet_for_pod [] (codes "web") (λ n. none) (some subnets))
find_subnet_for_pod-SelectionOutcome_example =
    find_subnet_for_pod-SelectionOutcome [] (codes "web") (λ n. none) (some subnets)

found_subnets :
    (find_subnet_for_pod [] (codes "web") (λ n. none) (some subnets) ≡ chosen web_subnet)
    × (find_subnet_for_pod [] (codes "other") (λ n. none) (some subnets) ≡ chosen default_subnet)
unfolding find_subnet_for_pod pick_subnet has_text lookup text_eq
found_subnets = (refl, refl)

one-AllValid : AllValid ((codes "other", small) ∷ [])
unfolding lookup
one-AllValid k a e = elim (Bool-cases (text_eq (codes "other") k)) [
  | inl same ↦ let eq : small ≡ a = same_one (rw same at e) in subst IsValid eq small-IsValid
  | inr other ↦ absurd (none_some none refl (rw other at e))
]
  where
    same_one : some small ≡ some a → small ≡ a
    same_one h = cc

    none_some : (o : Option SubnetAllocator) → o ≡ none → o ≡ some a → ⊥
    none_some o n h = absurd cc

ensure_ip_allocator-EnsuredOutcome_example :
    EnsuredOutcome web_subnet
      ((codes "other", small) ∷ [])
      (ensure_ip_allocator 8 web_subnet ((codes "other", small) ∷ []))
ensure_ip_allocator-EnsuredOutcome_example =
    ensure_ip_allocator-EnsuredOutcome 8 web_subnet ((codes "other", small) ∷ [])
      (mapped_prefix ++ 10 ∷ 244 ∷ 1 ∷ 11 ∷ []) small_net parse_small refl one-AllValid

-- Two maps with different keys are equal where the values are empty.
maps_equal_keys : maps_equal ((codes "a", []) ∷ []) ((codes "b", []) ∷ []) ≡ true
unfolding maps_equal entries_match lookup text_eq
maps_equal_keys = refl
