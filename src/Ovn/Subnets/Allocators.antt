-- ===== src/Ovn/Subnets/Allocators.antt =====
-- pkg/ovn/subnet_controller.go: the allocators of ensureIPAllocator, and mapsEqual.
use zstack_ovn_kubernetes.Base.{
  ℕ, ◌≡◌, refl, ap, Text, Option, none, some, text_eq, text_eq_iff, text_eq_refl, Bool-cases, inl,
  inr, arith,
}
use zstack_ovn_kubernetes.Base.Dict.{Dict, lookup, insert, lookup-insert}
use zstack_ovn_kubernetes.Net.Ip.{Ip, IpNet}
use zstack_ovn_kubernetes.Net.Parse.{parse_cidr}
use zstack_ovn_kubernetes.Allocator.Subnet.{SubnetAllocator}
use zstack_ovn_kubernetes.Allocator.Subnet.Errors.{Outcome, ok, err, panic, running, ◌>>=◌}
use zstack_ovn_kubernetes.Allocator.Subnet.Exclude.{new_subnet_allocator}
use zstack_ovn_kubernetes.Allocator.Subnet.Valid.{IsValid}
use zstack_ovn_kubernetes.Allocator.Subnet.Create.{new_subnet_allocator-IsValid}
use zstack_ovn_kubernetes.Ovn.Subnets.{Subnet, ensure_ip_allocator, add_allocator, all_excludes}

-- Every allocator of the map is valid.
abbrev pub AllValid : Dict SubnetAllocator → Type 0
AllValid m = (k : Text) (a : SubnetAllocator) → lookup k m ≡ some a → IsValid a

-- On success every allocator is valid, the subnet has one, and one that was there, of this subnet or of
-- another, is still the same.
abbrev pub EnsuredOutcome : Subnet → Dict SubnetAllocator → Outcome (Dict SubnetAllocator) → Type 0
EnsuredOutcome s m (ok n) =
    AllValid n
    × ((a : SubnetAllocator) × (lookup s.name n ≡ some a))
    × ((k : Text) (a : SubnetAllocator) → lookup k m ≡ some a → lookup k n ≡ some a)
EnsuredOutcome s m (err e) = lookup s.name m ≡ none
EnsuredOutcome s m panic = lookup s.name m ≡ none
EnsuredOutcome s m running = lookup s.name m ≡ none

added-EnsuredOutcome :
    (s : Subnet) (m : Dict SubnetAllocator) (r : Outcome SubnetAllocator)
    → lookup s.name m ≡ none
    → ((a : SubnetAllocator) → r ≡ ok a → IsValid a)
    → AllValid m
    → EnsuredOutcome s m (r >>= λ a. ok (insert s.name a m))
added-EnsuredOutcome s m (err e) new v all = new
added-EnsuredOutcome s m panic new v all = new
added-EnsuredOutcome s m running new v all = new
added-EnsuredOutcome s m (ok a) new v all = (valid, (a, here), kept)
  where
    here : lookup s.name (insert s.name a m) ≡ some a
    here = rw (lookup-insert s.name s.name a m, text_eq_refl s.name) refl

    valid : AllValid (insert s.name a m)
    valid k b e = elim (Bool-cases (text_eq s.name k)) [
      | inl same ↦
          let eq : some a ≡ some b = rw (lookup-insert s.name k a m, same) at e in v b (ap ok cc)
      | inr other ↦ all k b (rw (lookup-insert s.name k a m, other) at e)
    ]

    kept :
        (k : Text) (b : SubnetAllocator)
        → lookup k m ≡ some b
        → lookup k (insert s.name a m) ≡ some b
    kept k b e = elim (Bool-cases (text_eq s.name k)) [
      | inl same ↦ let eq : s.name ≡ k = (text_eq_iff s.name k).0 same in absurd (ground arith)
      | inr other ↦ rw (lookup-insert s.name k a m, other) e
    ]

-- ensureIPAllocator of a subnet with an IPv4 CIDR, over valid allocators: on success all allocators are
-- valid, the subnet has one, and every allocator that was there is still the same, with what it has
-- allocated; it fails only for a subnet that has none yet.
pub ensure_ip_allocator-EnsuredOutcome :
    (rounds : ℕ) (s : Subnet) (m : Dict SubnetAllocator) (ip : Ip) (n : IpNet)
    → parse_cidr s.cidr ≡ some (ip, n)
    → n.bits ≡ 32
    → AllValid m
    → EnsuredOutcome s m (ensure_ip_allocator rounds s m)
unfolding ensure_ip_allocator
ensure_ip_allocator-EnsuredOutcome rounds s m ip n p b all = by_lookup (lookup s.name m) refl
  where
    by_lookup :
        (x : Option SubnetAllocator)
        → lookup s.name m ≡ x
        → EnsuredOutcome s m (add_allocator rounds s m x)
    by_lookup (some a) e = (all, (a, e), λ k b h. h)
    by_lookup none e =
        added-EnsuredOutcome s m (new_subnet_allocator rounds s.cidr (all_excludes s)) e
          (λ a h. new_subnet_allocator-IsValid rounds s.cidr (all_excludes s) ip n a p b h) all
