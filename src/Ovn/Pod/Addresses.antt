-- ===== src/Ovn/Pod/Addresses.antt =====
-- pkg/ovn/pod_controller.go: no address is recorded for two pods.
use zstack_ovn_kubernetes.Base.{
  ◌≡◌, refl, sym, subst, arith, text_eq_iff, All, Bool, true, false, Text, Option, none, some,
}
use zstack_ovn_kubernetes.Base.Dict.{Dict, lookup, insert, delete, lookup-insert}
use zstack_ovn_kubernetes.Net.Ip.{Ip, IpNet}
use zstack_ovn_kubernetes.Net.Parse.{parse_cidr}
use zstack_ovn_kubernetes.Net.Util.{generate_mac}
use zstack_ovn_kubernetes.Allocator.Subnet.{SubnetAllocator}
use zstack_ovn_kubernetes.Allocator.Subnet.Errors.{Outcome}
use zstack_ovn_kubernetes.Ovndb.Errors.{Result, ok, err}
use zstack_ovn_kubernetes.Ovndb.LogicalSwitch.{SwitchClient}
use zstack_ovn_kubernetes.Ovndb.LogicalSwitchPort.{PortClient}
use zstack_ovn_kubernetes.Ovndb.PortName.{build_port_name}
use zstack_ovn_kubernetes.Ovn.Subnets.{
  Subnet, Selection, chosen, no_subnet, not_found, not_active, list_failed, find_subnet_for_pod,
  get_logical_switch_name,
}
use zstack_ovn_kubernetes.Ovn.Pod.{
  Pod, PodApi, State, Failure, update_failed, port_failed, Answer, done, ip_text,
  cleanup_allocation, allocate_ip, release_ip, create_pod_port,
}
use zstack_ovn_kubernetes.Net.Ip.{to4}
use zstack_ovn_kubernetes.Net.Bytes.{IsByte}
use zstack_ovn_kubernetes.Allocator.Subnet.{allocate_next, release}
use zstack_ovn_kubernetes.Allocator.Subnet.Allocate.{
  same_address, AllocateNextOutcome, allocate_next-AllocateNextOutcome,
}
use zstack_ovn_kubernetes.Allocator.Subnet.Release.{ReleaseOutcome, release-ReleaseOutcome}
use zstack_ovn_kubernetes.Ovn.Pod.{granted, known_or_next, released}
use zstack_ovn_kubernetes.Ovn.Pod.Booked.{
  addresses, Booked, next_Booked, cleanup_Booked, release_Booked, lookup-Proper, others_differ,
  allocate_next-bytes,
}
use zstack_ovn_kubernetes.Ovn.Pod.Reconcile.{
  key_of, after_update, given_back, annotate, after_port, after_cidr, after_ip, with_allocator,
  with_selection, configure_pod_network,
}

lookup_inserted : {V : Type 0} (k : Text) (v : V) (m : Dict V) → lookup k (insert k v m) ≡ some v
lookup_inserted k v m = ground (arith, lookup-insert k k v m, text_eq_iff k k)

module _ {K S : Type 0} where
  -- The allocator of the subnet has every recorded address taken, and no address is recorded twice.
  abbrev pub PodsBooked : Text → State K S → Type 0
  PodsBooked n s =
      (a : SubnetAllocator) × (lookup n s.allocators ≡ some a) × Booked a s.pod_allocations

  -- What allocateIP leaves for the pod of the key.
  abbrev pub AddressBooked : Text → Text → State K S × Outcome Ip → Type 0
  AddressBooked key n (t, Outcome.ok ip) = PodsBooked n t × (lookup key t.pod_allocations ≡ some ip)
  AddressBooked key n (t, Outcome.err e) = PodsBooked n t
  AddressBooked key n (t, Outcome.panic) = PodsBooked n t
  AddressBooked key n (t, Outcome.running) = PodsBooked n t

  granted-Booked :
      (key n : Text) (a : SubnetAllocator) (s : State K S) (r : Outcome (SubnetAllocator × Ip))
      → allocate_next a ≡ r
      → AllocateNextOutcome a r
      → lookup n s.allocators ≡ some a
      → Booked a s.pod_allocations
      → AddressBooked key n (granted key n s r)
  granted-Booked key n a s (Outcome.ok (b, ip)) e o l h = (
    (
      b,
      lookup_inserted n b s.allocators,
      next_Booked a b key ip s.pod_allocations o (allocate_next-bytes a b ip e) h,
    ),
    lookup_inserted key ip s.pod_allocations,
  )
  granted-Booked key n a s (Outcome.err x) e o l h = (a, l, h)
  granted-Booked key n a s Outcome.panic e o l h = (a, l, h)
  granted-Booked key n a s Outcome.running e o l h = (a, l, h)

  known_or_next-Booked :
      (key n : Text) (a : SubnetAllocator) (s : State K S) (r : Option Ip)
      → lookup key s.pod_allocations ≡ r
      → lookup n s.allocators ≡ some a
      → Booked a s.pod_allocations
      → AddressBooked key n (known_or_next key n a s r)
  known_or_next-Booked key n a s (some ip) e l h = ((a, l, h), e)
  known_or_next-Booked key n a s none e l h =
      granted-Booked key n a s (allocate_next a) refl (allocate_next-AllocateNextOutcome h.valid) l
        h

  pub allocate_ip-Booked :
      (key n : Text) (a : SubnetAllocator) (s : State K S)
      → lookup n s.allocators ≡ some a
      → Booked a s.pod_allocations
      → AddressBooked key n (allocate_ip key n a s)
  unfolding allocate_ip
  allocate_ip-Booked key n a s l h =
      known_or_next-Booked key n a s (lookup key s.pod_allocations) refl l h

  -- Release of an address that no other pod has, and then cleanupAllocation.
  abbrev pub Cleaned : Text → Text → State K S → Outcome (State K S) → Type 0
  Cleaned key n s (Outcome.ok t) = PodsBooked n (cleanup_allocation key t)
  Cleaned key n s (Outcome.err e) = PodsBooked n (cleanup_allocation key s)
  Cleaned key n s Outcome.panic = Unit {0}
  Cleaned key n s Outcome.running = Unit {0}

  pub released-Cleaned :
      (key n : Text) (a : SubnetAllocator) (ip : Ip) (s : State K S) (r : Outcome SubnetAllocator)
      → ReleaseOutcome a ip r
      → All (λ q. same_address ip q ≡ false) (addresses (delete key s.pod_allocations))
      → lookup n s.allocators ≡ some a
      → Booked a s.pod_allocations
      → Cleaned key n s (released n s r)
  released-Cleaned key n a ip s (Outcome.ok b) o other l h =
      (b, lookup_inserted n b s.allocators, release_Booked a b key ip s.pod_allocations o other h)
  released-Cleaned key n a ip s (Outcome.err e) o other l h =
      (a, l, cleanup_Booked a key s.pod_allocations h)
  released-Cleaned key n a ip s Outcome.panic o other l h = tt
  released-Cleaned key n a ip s Outcome.running o other l h = tt

  pub cleanup-PodsBooked :
      (key n : Text) (s : State K S) → PodsBooked n s → PodsBooked n (cleanup_allocation key s)
  cleanup-PodsBooked key n s (a, l, h) = (a, l, cleanup_Booked a key s.pod_allocations h)

  pub release_ip-Cleaned :
      (key n : Text) (ip : Ip) (s : State K S)
      → All IsByte (to4 ip)
      → All (λ q. same_address ip q ≡ false) (addresses (delete key s.pod_allocations))
      → PodsBooked n s
      → Cleaned key n s (release_ip n ip s)
  unfolding release_ip
  release_ip-Cleaned key n ip s bytes other (a, l, h) = rw l (
      released-Cleaned key n a ip s (release a ip) (release-ReleaseOutcome h.valid ip bytes) other l
        h)

module _ {K S Op : Type 0} (api : PodApi K) (ports : PortClient S Op) (switches : SwitchClient S Op)
    (n : Text) where
  pub after_update-PodsBooked :
      (e : Failure) (x : Answer) (s : State K S) (r : K × Bool)
      → PodsBooked n s
      → PodsBooked n (after_update api ports switches e x s r).0
  after_update-PodsBooked e x s (k, true) h = h
  after_update-PodsBooked e x s (k, false) h = h

  given_back-PodsBooked :
      (key : Text) (s : State K S) (e : Failure) (r : Outcome (State K S))
      → Cleaned key n s r
      → PodsBooked n s
      → PodsBooked n (given_back api ports switches key s e r).0
  given_back-PodsBooked key s e (Outcome.ok t) c h = c
  given_back-PodsBooked key s e (Outcome.err x) c h = c
  given_back-PodsBooked key s e Outcome.panic c h = h
  given_back-PodsBooked key s e Outcome.running c h = h

module _ {K S Op : Type 0} (api : PodApi K) (ports : PortClient S Op)
    (switches : SwitchClient S Op) where
  after_port-PodsBooked :
      (pod : Pod) (subnet : Subnet) (ip : Ip) (net : IpNet) (s : State K S) (r : S × Result Unit)
      → lookup (key_of pod) s.pod_allocations ≡ some ip
      → PodsBooked subnet.name s
      → PodsBooked subnet.name (after_port api ports switches pod subnet ip net s r).0
  after_port-PodsBooked pod subnet ip net s (d, ok u) e h =
      after_update-PodsBooked api ports switches subnet.name update_failed done
        (record s { db = d }) (api.update (annotate api ports switches pod subnet ip net) s.kube) h
  after_port-PodsBooked pod subnet ip net s (d, err x) e h =
      let m = s.pod_allocations in
      let b = h.2 in
      given_back-PodsBooked api ports switches subnet.name (key_of pod) (record s { db = d })
        (port_failed x) (release_ip subnet.name ip (record s { db = d }))
        (release_ip-Cleaned (key_of pod) subnet.name ip (record s { db = d })
          (lookup-Proper h.0 (key_of pod) ip m b e).1
          (others_differ (key_of pod) ip m e b.proper b.apart) h)
        h

  after_cidr-PodsBooked :
      (pod : Pod) (subnet : Subnet) (ip : Ip) (s : State K S) (c : Option (Ip × IpNet))
      → lookup (key_of pod) s.pod_allocations ≡ some ip
      → PodsBooked subnet.name s
      → PodsBooked subnet.name (after_cidr api ports switches pod subnet ip s c).0
  after_cidr-PodsBooked pod subnet ip s none e h = h
  after_cidr-PodsBooked pod subnet ip s (some (base, net)) e h =
      after_port-PodsBooked pod subnet ip net s
        (create_pod_port ports switches pod (get_logical_switch_name subnet)
          (build_port_name pod.namespace pod.name) (generate_mac ip) (ip_text ip) s.db)
        e h

  after_ip-PodsBooked :
      (pod : Pod) (subnet : Subnet) (r : State K S × Outcome Ip)
      → AddressBooked (key_of pod) subnet.name r
      → PodsBooked subnet.name (after_ip api ports switches pod subnet r).0
  after_ip-PodsBooked pod subnet (s, Outcome.ok ip) h =
      after_cidr-PodsBooked pod subnet ip s (parse_cidr subnet.cidr) h.1 h.0
  after_ip-PodsBooked pod subnet (s, Outcome.err e) h = h
  after_ip-PodsBooked pod subnet (s, Outcome.panic) h = h
  after_ip-PodsBooked pod subnet (s, Outcome.running) h = h

  with_allocator-PodsBooked :
      (pod : Pod) (subnet : Subnet) (s : State K S)
      → PodsBooked subnet.name s
      → PodsBooked subnet.name
          (with_allocator api ports switches pod subnet s (lookup subnet.name s.allocators)).0
  with_allocator-PodsBooked pod subnet s (a, l, h) = rw l (
      after_ip-PodsBooked pod subnet (allocate_ip (key_of pod) subnet.name a s)
        (allocate_ip-Booked (key_of pod) subnet.name a s l h))

  with_selection-PodsBooked :
      (n : Text) (pod : Pod) (s : State K S) (x : Selection)
      → ((subnet : Subnet) → x ≡ chosen subnet → subnet.name ≡ n)
      → PodsBooked n s
      → PodsBooked n (with_selection api ports switches pod s x).0
  with_selection-PodsBooked n pod s (chosen subnet) one h =
      let e = one subnet refl in
      subst (λ m. PodsBooked m (with_selection api ports switches pod s (chosen subnet)).0) e
        (with_allocator-PodsBooked pod subnet s (subst (λ m. PodsBooked m s) (sym e) h))
  with_selection-PodsBooked n pod s no_subnet one h = h
  with_selection-PodsBooked n pod s (not_found x) one h = h
  with_selection-PodsBooked n pod s (not_active x) one h = h
  with_selection-PodsBooked n pod s list_failed one h = h

  -- findSubnetForPod chooses no other subnet than the one of the name.
  abbrev pub Selects : Text → Pod → State K S → Type 0
  Selects n pod s =
      (subnet : Subnet)
      → find_subnet_for_pod pod.annotations pod.namespace (λ m. api.get_subnet m s.kube)
          (api.list_subnets s.kube)
        ≡ chosen subnet
      → subnet.name ≡ n

  pub configure_pod_network-PodsBooked :
      (n : Text) (pod : Pod) (s : State K S)
      → Selects n pod s
      → PodsBooked n s
      → PodsBooked n (configure_pod_network api ports switches pod s).0
  unfolding configure_pod_network
  configure_pod_network-PodsBooked n pod s one h = with_selection-PodsBooked n pod s _ one h
