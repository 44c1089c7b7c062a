-- ===== src/Ovn/Pod.antt =====
-- pkg/ovn/pod_controller.go: PodReconciler, less findSubnetForPod, which Ovn/Subnets has.
pub mod Reconcile
pub mod Booked
pub mod Direct
pub mod Addresses
pub mod Deletion
use zstack_ovn_kubernetes.Ovn.Finalizers.{contains_finalizer, remove_finalizer}
use zstack_ovn_kubernetes.Base.{
  is_some, ℕ, Bool, true, false, not, ◌&&◌, ◌||◌, List, [], ◌∷◌, ◌++◌, Text, codes, decimal, Option,
  none, some, if◌then◌else◌, is_empty, text_eq, split,
}
use zstack_ovn_kubernetes.Base.Dict.{Dict, lookup, insert, delete}
use zstack_ovn_kubernetes.Net.Ip.{Ip, IpNet, to4, is_nil}
use zstack_ovn_kubernetes.Net.Parse.{parse_ip, parse_cidr}
use zstack_ovn_kubernetes.Net.Util.{generate_mac}
use zstack_ovn_kubernetes.Allocator.Subnet.{SubnetAllocator, allocate_next, release}
use zstack_ovn_kubernetes.Allocator.Subnet.Errors.{Outcome}
use zstack_ovn_kubernetes.Allocator.Subnet.Errors
use zstack_ovn_kubernetes.Ovndb.Errors.{Result, ok, err, Step, is_not_found, wrapped}
use zstack_ovn_kubernetes.Ovndb.Errors as DbErrors
use zstack_ovn_kubernetes.Ovndb.Table.{discard}
use zstack_ovn_kubernetes.Ovndb.LogicalSwitch.{SwitchClient}
use zstack_ovn_kubernetes.Ovndb.LogicalSwitchPort.{
  LogicalSwitchPort, PortClient, get_logical_switch_port, create_logical_switch_port,
  delete_logical_switch_port,
}
use zstack_ovn_kubernetes.Ovndb.PortName.{build_port_name}
use zstack_ovn_kubernetes.Annotation.Operations.{has_pod_annotation}
use zstack_ovn_kubernetes.Ovn.Subnets.{Subnet, Selection}

-- The fields of a Pod that the controller reads or writes.
pub record Pod : Type 0 where
  pub name : Text
  pub namespace : Text
  pub uid : Text
  pub annotations : Dict Text
  pub finalizers : List Text
  pub host_network : Bool
  pub phase : Text
  pub is_deleted : Bool

-- What client.Get answers for a pod.
pub data PodRead : Type 0 where
  found : Pod → PodRead
  missing : PodRead
  failed : PodRead

-- The Kubernetes API: its answers in a state, and the state after an update, with its success.
pub record PodApi (K : Type 0) : Type 0 where
  pub get_pod : Text → Text → K → PodRead
  pub get_subnet : Text → K → Option Subnet
  pub list_subnets : K → Option (List Subnet)
  pub update : Pod → K → K × Bool

-- podAllocations holds IP.String() of each address; the model holds the address, which ParseIP gives
-- back. GetAllocator(name) is the allocator under the name, which a method changes in place.
pub record State (K S : Type 0) : Type 0 where
  pub kube : K
  pub db : S
  pub pod_allocations : Dict Ip
  pub allocators : Dict SubnetAllocator

pub data Failure : Type 0 where
  get_failed : Failure
  update_failed : Failure
  subnet_failed : Selection → Failure
  allocator_not_ready : Text → Failure
  not_allocated : Errors.Error → Failure
  port_failed : DbErrors.Error → Failure

-- What Reconcile returns, a panic of the code below it, or an allocator's loop without end.
pub data Answer : Type 0 where
  done : Answer
  requeue : Answer
  failure : Failure → Answer
  panicked : Answer
  unfinished : Answer

abbrev pub pod_finalizer : Text
pod_finalizer = codes "pod.network.zstack.io/finalizer"

unfoldable pub should_manage_pod : Pod → Bool
should_manage_pod pod =
    if pod.host_network
    then false
    else if text_eq pod.phase (codes "Succeeded") || text_eq pod.phase (codes "Failed")
    then false
    else if is_some (lookup (codes "kubernetes.io/config.mirror") pod.annotations)
    then false
    else true

abbrev pub differ : Bool → Bool → Bool
differ true b = not b
differ false b = b

-- UpdateFunc of podEventFilter.
unfoldable pub passes_update : Pod → Pod → Bool
unfolding should_manage_pod has_pod_annotation contains_finalizer
passes_update old new =
    if new.is_deleted
    then true
    else if not (should_manage_pod new)
    then false
    else if differ (has_pod_annotation old.annotations) (has_pod_annotation new.annotations)
    then true
    else differ (contains_finalizer pod_finalizer old.finalizers)
        (contains_finalizer pod_finalizer new.finalizers)

abbrev pub pod_key : Text → Text → Text
pod_key namespace name = namespace ++ b'/' ∷ name

-- IP.String() of an address with an IPv4 form; the allocators grant no others.
abbrev dotted : Ip → Text
dotted [] = codes "<nil>"
dotted (b ∷ []) = decimal b
dotted (b ∷ c ∷ bs) = decimal b ++ b'.' ∷ dotted (c ∷ bs)

abbrev pub ip_text : Ip → Text
ip_text ip = dotted (to4 ip)

abbrev pub with_prefix : Ip → IpNet → Text
with_prefix ip net = ip_text ip ++ b'/' ∷ decimal net.ones

module _ {K S : Type 0} where
  abbrev pub cleanup_allocation : Text → State K S → State K S
  cleanup_allocation key s = record s { pod_allocations = delete key s.pod_allocations }

  abbrev pub granted :
      Text → Text → State K S → Outcome (SubnetAllocator × Ip) → State K S × Outcome Ip
  granted key subnet s (Outcome.ok (a, ip)) = (
    record s {
      pod_allocations = insert key ip s.pod_allocations;
      allocators = insert subnet a s.allocators;
    },
    Outcome.ok ip,
  )
  granted key subnet s (Outcome.err e) = (s, Outcome.err e)
  granted key subnet s Outcome.panic = (s, Outcome.panic)
  granted key subnet s Outcome.running = (s, Outcome.running)

  abbrev pub known_or_next :
      Text → Text → SubnetAllocator → State K S → Option Ip → State K S × Outcome Ip
  known_or_next key subnet a s (some ip) = (s, Outcome.ok ip)
  known_or_next key subnet a s none = granted key subnet s (allocate_next a)

  -- The allocator a is the one of the subnet.
  unfoldable pub allocate_ip : Text → Text → SubnetAllocator → State K S → State K S × Outcome Ip
  unfolding allocate_next
  allocate_ip key subnet a s = known_or_next key subnet a s (lookup key s.pod_allocations)

  abbrev pub released : Text → State K S → Outcome SubnetAllocator → Outcome (State K S)
  released subnet s (Outcome.ok a) =
      Outcome.ok (record s { allocators = insert subnet a s.allocators })
  released subnet s (Outcome.err e) = Outcome.err e
  released subnet s Outcome.panic = Outcome.panic
  released subnet s Outcome.running = Outcome.running

  abbrev pub release_from : Text → Ip → State K S → Option SubnetAllocator → Outcome (State K S)
  release_from subnet ip s none = Outcome.ok s
  release_from subnet ip s (some a) = released subnet s (release a ip)

  -- Release, where the subnet has an allocator; its error is for the caller to drop.
  unfoldable pub release_ip : Text → Ip → State K S → Outcome (State K S)
  unfolding release
  release_ip subnet ip s = release_from subnet ip s (lookup subnet s.allocators)

  abbrev pub get_pod_allocation : Text → Text → State K S → Option Ip
  get_pod_allocation namespace name s = lookup (pod_key namespace name) s.pod_allocations

module _ {S Op : Type 0} (ports : PortClient S Op) (switches : SwitchClient S Op) where
  abbrev pub port_ids : Pod → Text → Dict Text
  port_ids pod switch =
      (codes "namespace", pod.namespace)
      ∷ (codes "pod", pod.name)
      ∷ (codes "pod-uid", pod.uid)
      ∷ (codes "owner", codes "pod-controller")
      ∷ (codes "logical_switch", switch)
      ∷ []

  -- A port of the name is left as it is; only ErrNotFound leads to a new one.
  abbrev pub unless_exists :
      Step S LogicalSwitchPort → S × Result LogicalSwitchPort → S × Result Unit
  unless_exists create (t, ok port) = (t, ok tt)
  unless_exists create (t, err e) =
      if is_not_found e
      then DbErrors.wrap_result (codes "failed to create LSP") (discard (create t))
      else (t, err (wrapped (codes "failed to check existing port") e))

  unfoldable pub create_pod_port : Pod → Text → Text → Text → Text → Step S Unit
  unfolding get_logical_switch_port create_logical_switch_port
  create_pod_port pod switch port mac ip s =
      unless_exists
        (create_logical_switch_port ports switches switch port mac (ip ∷ [])
          (some (port_ids pod switch)))
        (get_logical_switch_port ports switches port s)
