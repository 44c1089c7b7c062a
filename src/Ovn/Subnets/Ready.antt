-- ===== src/Ovn/Subnets/Ready.antt =====
-- pkg/ovn/subnet_controller.go: what reconcileSubnet leaves for the pods where it succeeds.
use zstack_ovn_kubernetes.Base.{
  ◌≡◌, refl, ap, ◌∙◌, ℕ, ◌+◌, Bool, true, false, Text, codes, Option, some,
}
use zstack_ovn_kubernetes.Base.Dict.{Dict, lookup}
use zstack_ovn_kubernetes.Allocator.Subnet.{SubnetAllocator, free}
use zstack_ovn_kubernetes.Allocator.Subnet.Errors.{Outcome}
use zstack_ovn_kubernetes.Ovndb.Errors.{Result, ok, err}
use zstack_ovn_kubernetes.Ovndb.LogicalSwitch.{SwitchClient}
use zstack_ovn_kubernetes.Config.{Config}
use zstack_ovn_kubernetes.Ovn.Subnets.{get_logical_switch_name, ensure_ip_allocator}
use zstack_ovn_kubernetes.Ovn.Subnets.Status.{SubnetObject, active_object}
use zstack_ovn_kubernetes.Ovn.Subnets.Reconcile.{
  SubnetApi, SubnetState, SubnetError, SubnetAnswer, done, requeue, failure, panicked, unfinished,
  Run, validate_subnet, after_status, update_status_active, after_allocator, after_switch,
  switch_step, after_validate, reconcile_subnet,
}
use zstack_ovn_kubernetes.Net.Ip.{Ip, IpNet}
use zstack_ovn_kubernetes.Net.Parse.{parse_cidr}
use zstack_ovn_kubernetes.Allocator.Subnet.Capacity.{free-used}
use zstack_ovn_kubernetes.Ovn.Subnets.Status.{available_of, used_of}
use zstack_ovn_kubernetes.Ovn.Subnets.Allocators.{
  AllValid, EnsuredOutcome, ensure_ip_allocator-EnsuredOutcome,
}

-- From the state before and the object that was read, to the run.
pub record Ready {K S : Type 0} (api : SubnetApi K) (o : SubnetObject) (s : SubnetState K S)
    (r : Run K S) : Type 0 where
  pub allocator : SubnetAllocator
  pub there : lookup o.spec.name r.state.allocators ≡ some allocator
  pub valid : AllValid r.state.allocators
  pub kept :
      (k : Text) (a : SubnetAllocator)
      → lookup k s.allocators ≡ some a
      → lookup k r.state.allocators ≡ some a
  pub active : r.object.spec.phase ≡ codes "Active"
  pub switch : r.object.status.logical_switch ≡ get_logical_switch_name o.spec
  pub free_shown : r.object.status.available_ips ≡ free allocator
  pub all_counted : r.object.status.available_ips + r.object.status.used_ips ≡ allocator.size
  pub written : (k : K) × (api.update_status r.object k ≡ (r.state.kube, true))

module _ {K S Op : Type 0} (api : SubnetApi K) (switches : SwitchClient S Op) (cfg : Config)
    (rounds : ℕ) (text_of : SubnetError → Text) (o : SubnetObject) (s : SubnetState K S) where
  after_status-Ready :
      (a : SubnetAllocator) (t : SubnetState K S) (p : SubnetObject) (r : K × Bool)
      → lookup o.spec.name t.allocators ≡ some a
      → AllValid t.allocators
      → ((k : Text) (b : SubnetAllocator)
          → lookup k s.allocators ≡ some b
          → lookup k t.allocators ≡ some b)
      → p
        ≡ active_object
            (api.now t.kube)
            (get_logical_switch_name o.spec)
            (lookup o.spec.name t.allocators)
            o
      → api.update_status p t.kube ≡ r
      → (after_status api switches cfg rounds text_of p t r).answer ≡ done
      → Ready api o s (after_status api switches cfg rounds text_of p t r)
  unfolding active_object
  after_status-Ready a t p (k, false) l v kept is e d = absurd cc
  after_status-Ready a t p (k, true) l v kept is e d = record {
    allocator = a;
    there = l;
    valid = v;
    kept = kept;
    active = ap (λ (x : SubnetObject). x.spec.phase) is;
    switch = ap (λ (x : SubnetObject). x.status.logical_switch) is;
    free_shown = ap (λ (x : SubnetObject). x.status.available_ips) is ∙ ap available_of l;
    all_counted =
        ap (λ (x : SubnetObject). x.status.available_ips + x.status.used_ips) is
        ∙ ap (λ (x : Option SubnetAllocator). available_of x + used_of x) l
        ∙ free-used (v o.spec.name a l);
    written = (t.kube, e);
  }

  after_allocator-Ready :
      (t : SubnetState K S) (r : Outcome (Dict SubnetAllocator))
      → EnsuredOutcome o.spec s.allocators r
      → (after_allocator api switches cfg rounds text_of o t r).answer ≡ done
      → Ready api o s (after_allocator api switches cfg rounds text_of o t r)
  unfolding update_status_active
  after_allocator-Ready t (Outcome.ok m) e d =
      after_status-Ready e.1.0 (record t { allocators = m }) _ _ e.1.1 e.0 e.2 refl refl d
  after_allocator-Ready t (Outcome.err x) e d = absurd cc
  after_allocator-Ready t Outcome.panic e d = absurd cc
  after_allocator-Ready t Outcome.running e d = absurd cc

  after_switch-Ready :
      (r : S × Result Unit)
      → EnsuredOutcome o.spec s.allocators (ensure_ip_allocator rounds o.spec s.allocators)
      → (after_switch api switches cfg rounds text_of o s r).answer ≡ done
      → Ready api o s (after_switch api switches cfg rounds text_of o s r)
  after_switch-Ready (t, err x) e d = absurd cc
  after_switch-Ready (t, ok u) e d =
      after_allocator-Ready (record s { db = t }) (ensure_ip_allocator rounds o.spec s.allocators) e
        d

  after_validate-Ready :
      (x : SubnetAnswer)
      → EnsuredOutcome o.spec s.allocators (ensure_ip_allocator rounds o.spec s.allocators)
      → (after_validate api switches cfg rounds text_of o s x).answer ≡ done
      → Ready api o s (after_validate api switches cfg rounds text_of o s x)
  after_validate-Ready done e d =
      after_switch-Ready (switch_step api switches cfg rounds text_of o.spec s.db) e d
  after_validate-Ready requeue e d = absurd cc
  after_validate-Ready (failure x) e d = absurd cc
  after_validate-Ready panicked e d = absurd cc
  after_validate-Ready unfinished e d = absurd cc

  -- Where reconcileSubnet of a subnet with an IPv4 CIDR succeeds, over valid allocators: the subnet has
  -- an allocator, all allocators are valid, and each one that was there is still the same; and the API
  -- took a status that says Active, names the subnet's switch, has the number of free addresses as the
  -- available ones, and counts every address of the allocator as available or used.
  pub reconcile_subnet-Ready :
      (ip : Ip) (n : IpNet)
      → parse_cidr o.spec.cidr ≡ some (ip, n)
      → n.bits ≡ 32
      → AllValid s.allocators
      → (reconcile_subnet api switches cfg rounds text_of o s).answer ≡ done
      → Ready api o s (reconcile_subnet api switches cfg rounds text_of o s)
  unfolding reconcile_subnet
  reconcile_subnet-Ready ip n p b v d =
      after_validate-Ready (validate_subnet rounds o.spec)
        (ensure_ip_allocator-EnsuredOutcome rounds o.spec s.allocators ip n p b v) d
