-- ===== src/Ovn/Pod/Direct.antt =====
-- pkg/ovn/pod_controller.go: AllocateIPForPod and ReleaseIPForPod.
use zstack_ovn_kubernetes.Base.{Text, Option, none, some, if◌then◌else◌}
use zstack_ovn_kubernetes.Base.Dict.{lookup}
use zstack_ovn_kubernetes.Net.Ip.{Ip, IpNet, is_nil}
use zstack_ovn_kubernetes.Net.Parse.{parse_ip, parse_cidr}
use zstack_ovn_kubernetes.Net.Util.{generate_mac}
use zstack_ovn_kubernetes.Allocator.Subnet.{SubnetAllocator}
use zstack_ovn_kubernetes.Allocator.Subnet.Errors.{Outcome}
use zstack_ovn_kubernetes.Allocator.Subnet.Errors
use zstack_ovn_kubernetes.Annotation.Operations.{before_slash}
use zstack_ovn_kubernetes.Ovn.Subnets.{Subnet}
use zstack_ovn_kubernetes.Ovn.Pod.{
  Pod, PodApi, State, pod_key, with_prefix, cleanup_allocation, allocate_ip, release_ip,
}
use zstack_ovn_kubernetes.Ovn.Pod.Reconcile.{key_of}

pub data DirectError : Type 0 where
  subnet_not_found : Text → DirectError
  allocator_not_found : Text → DirectError
  invalid_ip_address : Text → DirectError
  allocator_error : Errors.Error → DirectError

-- A value, an error, a panic of the code below, or an allocator's loop without end.
pub data DirectAnswer (A : Type 0) : Type 0 where
  value : A → DirectAnswer A
  failure : DirectError → DirectAnswer A
  panicked : DirectAnswer A
  unfinished : DirectAnswer A

-- The address with its prefix, and the MAC; a CIDR that does not parse leaves a nil network.
abbrev pub described : Ip → Option (Ip × IpNet) → DirectAnswer (Text × Text)
described ip none = panicked
described ip (some (base, net)) = value (with_prefix ip net, generate_mac ip)

module _ {K S : Type 0} where
  abbrev pub after_grant : Subnet → State K S × Outcome Ip → State K S × DirectAnswer (Text × Text)
  after_grant subnet (s, Outcome.ok ip) = (s, described ip (parse_cidr subnet.cidr))
  after_grant subnet (s, Outcome.err e) = (s, failure (allocator_error e))
  after_grant subnet (s, Outcome.panic) = (s, panicked)
  after_grant subnet (s, Outcome.running) = (s, unfinished)

  abbrev pub grant_from :
      Pod
      → Text
      → Subnet
      → State K S
      → Option SubnetAllocator
      → State K S × DirectAnswer (Text × Text)
  grant_from pod name subnet s none = (s, failure (allocator_not_found name))
  grant_from pod name subnet s (some a) = after_grant subnet (allocate_ip (key_of pod) name a s)

  abbrev pub grant_in :
      Pod → Text → State K S → Option Subnet → State K S × DirectAnswer (Text × Text)
  grant_in pod name s none = (s, failure (subnet_not_found name))
  grant_in pod name s (some subnet) = grant_from pod name subnet s (lookup name s.allocators)

  unfoldable pub allocate_ip_for_pod :
      PodApi K → Pod → Text → State K S → State K S × DirectAnswer (Text × Text)
  unfolding allocate_ip generate_mac parse_cidr
  allocate_ip_for_pod api pod name s = grant_in pod name s (api.get_subnet name s.kube)

  abbrev pub after_return : Text → State K S → Outcome (State K S) → State K S × DirectAnswer Unit
  after_return key s (Outcome.ok t) = (cleanup_allocation key t, value tt)
  after_return key s (Outcome.err e) = (s, failure (allocator_error e))
  after_return key s Outcome.panic = (s, panicked)
  after_return key s Outcome.running = (s, unfinished)

  abbrev pub return_to :
      Text → Text → Text → State K S → Option SubnetAllocator → State K S × DirectAnswer Unit
  return_to key name ip s none = (s, failure (allocator_not_found name))
  return_to key name ip s (some a) =
      if is_nil (parse_ip (before_slash ip))
      then (s, failure (invalid_ip_address ip))
      else after_return key s (release_ip name (parse_ip (before_slash ip)) s)

  unfoldable pub release_ip_for_pod :
      Text → Text → Text → Text → State K S → State K S × DirectAnswer Unit
  unfolding release_ip parse_ip
  release_ip_for_pod namespace name subnet ip s =
      return_to (pod_key namespace name) subnet ip s (lookup subnet s.allocators)
