-- ===== src/Ovn/Examples/SubnetObjects.antt =====
-- pkg/ovn/subnet_controller.go: Reconcile of the default subnet, with tables in memory.
use zstack_ovn_kubernetes.Base.{
  ◌≡◌, refl, inr, true, false, [], ◌∷◌, ◌++◌, Text, codes, Option, none, some, text_eq, subst,
  contains_byte, trim_space,
}
use zstack_ovn_kubernetes.Base.Dict.{lookup}
use zstack_ovn_kubernetes.Allocator.Subnet.{exclude_ip, ip_to_index, ip_to_int}
use zstack_ovn_kubernetes.Net.Ip.{mapped_prefix, hosts, contains, to4, mask}
use zstack_ovn_kubernetes.Net.Parse.{parse_cidr, parse_ip, parse_ipv4_fields}
use zstack_ovn_kubernetes.Allocator.Subnet.Exclude.{allocator_of, parse_and_exclude}
use zstack_ovn_kubernetes.Allocator.Examples.{small_net, parse_small}
use zstack_ovn_kubernetes.Ovndb.Table.{row}
use zstack_ovn_kubernetes.Ovndb.LogicalSwitch.{LogicalSwitch, SwitchClient, get_logical_switch}
use zstack_ovn_kubernetes.Ovndb.Zstack.{is_our_managed}
use zstack_ovn_kubernetes.Config.{default_config}
use zstack_ovn_kubernetes.Ovn.Subnets.{Subnet}
use zstack_ovn_kubernetes.Ovn.Subnets.Status.{SubnetObject}
use zstack_ovn_kubernetes.Ovn.Subnets.Reconcile.{
  SubnetApi, SubnetState, SubnetError, found, done, subnet_finalizer, reconcile_subnet,
  reconcile_subnet_request,
}
use zstack_ovn_kubernetes.Ovn.Subnets.Allocators.{AllValid}
use zstack_ovn_kubernetes.Ovn.Subnets.Untouched.{Foreign, reconcile_subnet_request-Foreign}
use zstack_ovn_kubernetes.Ovn.Subnets.Ready.{Ready, reconcile_subnet-Ready}
use zstack_ovn_kubernetes.Ovn.Examples.Balancers.{Rows, Op, switches}

abbrev subnet : Subnet
subnet = record {
  name = codes "default";
  phase = [];
  cidr = codes "10.244.1.11/29";
  gateway = codes "10.244.1.9";
  exclude_ips = [];
  namespaces = [];
  is_default = true;
  external_logical_switch = [];
  vlan_id = 0;
  provider = [];
}

abbrev object : SubnetObject
object = record {
  spec = subnet;
  finalizers = subnet_finalizer ∷ [];
  is_deleted = false;
  status = record {
    reason = [];
    message = [];
    available_ips = 0;
    used_ips = 0;
    logical_switch = [];
    conditions = [];
    last_update_time = none;
  };
}

-- The API has the one object; its state is the last object written.
abbrev api : SubnetApi (Option SubnetObject)
api = record {
  get = λ name k. found object;
  update = λ o k. (some o, true);
  update_status = λ o k. (some o, true);
  now = λ k. 7;
}

abbrev no_text : SubnetError → Text
no_text e = []

abbrev start : SubnetState (Option SubnetObject) Rows
start = record { kube = none; db = []; allocators = [] }

none-AllValid : AllValid []
unfolding lookup
none-AllValid k a e = absurd cc

start-done : (reconcile_subnet api switches default_config 8 no_text object start).answer ≡ done
unfolding reconcile_subnet parse_cidr parse_ip parse_ipv4_fields allocator_of hosts text_eq lookup
    parse_and_exclude contains_byte trim_space exclude_ip ip_to_index contains to4 mask ip_to_int
start-done = refl

reconcile_subnet-Ready_example :
    Ready api object start (reconcile_subnet api switches default_config 8 no_text object start)
reconcile_subnet-Ready_example =
    reconcile_subnet-Ready api switches default_config 8 no_text object start
      (mapped_prefix ++ 10 ∷ 244 ∷ 1 ∷ 11 ∷ []) small_net parse_small refl none-AllValid start-done

-- A switch of ZStack's stands under the name of the subnet's.
abbrev zstack_switch : LogicalSwitch
zstack_switch = record {
  uuid = codes "u9";
  name = codes "subnet-default";
  ports = [];
  acls = [];
  load_balancer = [];
  other_config = none;
  external_ids = some ((codes "zstack.io/vpc-uuid", codes "v1") ∷ []);
}

abbrev zstack_switches : SwitchClient Rows Op
zstack_switches = record switches { get = λ n s. row zstack_switch }

object-Foreign : Foreign zstack_switches subnet []
unfolding get_logical_switch is_our_managed lookup text_eq
object-Foreign = inr (zstack_switch, refl, refl)

reconcile_subnet_request-foreign_example :
    (reconcile_subnet_request api zstack_switches default_config 8 no_text
      (codes "default")
      start).0.db
    ≡ []
reconcile_subnet_request-foreign_example =
    reconcile_subnet_request-Foreign api zstack_switches default_config 8 no_text (codes "default")
      start
      (λ o e.
        subst (λ (p : SubnetObject). Foreign zstack_switches p.spec []) (same o e) object-Foreign)
  where
    same : (o : SubnetObject) → found object ≡ found o → object ≡ o
    same o e = cc
