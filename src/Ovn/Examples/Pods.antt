-- ===== src/Ovn/Examples/Pods.antt =====
-- pkg/ovn/pod_controller.go: pods of one subnet, with tables in memory.
use zstack_ovn_kubernetes.Ovn.Finalizers.{contains_finalizer}
use zstack_ovn_kubernetes.Base.{
  ◌≡◌, refl, sym, ap, true, false, List, [], ◌∷◌, Text, codes, Option, none, some, if◌then◌else◌,
  text_eq, subst,
}
use zstack_ovn_kubernetes.Base.Dict.{lookup}
use zstack_ovn_kubernetes.Allocator.Examples.{small, small-IsValid}
use zstack_ovn_kubernetes.Ovndb.Transact.{Client, replies}
use zstack_ovn_kubernetes.Ovndb.Table.{Answer, row, absent, failed}
use zstack_ovn_kubernetes.Ovndb.LogicalSwitch.{SwitchClient}
use zstack_ovn_kubernetes.Ovndb.LogicalSwitchPort.{LogicalSwitchPort, PortClient}
use zstack_ovn_kubernetes.Annotation.{PodAnnotation}
use zstack_ovn_kubernetes.Annotation.Operations.{not_annotated, annotated, get_pod_annotation}
use zstack_ovn_kubernetes.Ovn.Subnets.{Subnet, chosen, find_subnet_for_pod}
use zstack_ovn_kubernetes.Ovn.Pod.{Pod, found, PodApi, State, pod_finalizer, done}
use zstack_ovn_kubernetes.Ovn.Pod.Addresses.{PodsBooked, Selects}
use zstack_ovn_kubernetes.Ovn.Pod.Reconcile.{reconcile_pod}
use zstack_ovn_kubernetes.Ovn.Pod.Deletion.{Frees, reconcile_pod-PodsBooked}

data Op : Type 0 where
  put_port : LogicalSwitchPort → Op
  switch_op : Op

abbrev effects : List Op → List LogicalSwitchPort → List LogicalSwitchPort
effects [] d = d
effects (put_port p ∷ ops) d = effects ops (p ∷ d)
effects (switch_op ∷ ops) d = effects ops d

abbrev table_client : Client (List LogicalSwitchPort) Op
table_client = record {
  transact = λ ops d. (effects ops d, replies (codes "u1" ∷ []));
  check_results = λ us ops. true;
}

abbrev find_port : Text → List LogicalSwitchPort → Answer LogicalSwitchPort
find_port n [] = absent
find_port n (p ∷ ps) = if text_eq p.name n then row p else find_port n ps

abbrev ports : PortClient (List LogicalSwitchPort) Op
ports = record {
  client = table_client;
  polls = 3;
  connected = λ s. true;
  get = find_port;
  get_uuid = λ u s. failed;
  list = λ s. some s;
  select = λ p s. none;
  create = λ p. some (put_port p ∷ []);
  update = λ p fields. some (put_port p ∷ []);
  delete = λ n. none;
  delete_row = λ p. none;
  mutate = λ n c. none;
}

abbrev switches : SwitchClient (List LogicalSwitchPort) Op
switches = record {
  client = table_client;
  polls = 3;
  connected = λ s. true;
  get = λ n s. absent;
  get_uuid = λ u s. failed;
  list = λ s. some [];
  select = λ p s. some [];
  create = λ ls. some (switch_op ∷ []);
  update = λ ls fields. some (switch_op ∷ []);
  delete = λ n. some (switch_op ∷ []);
  delete_row = λ ls. some (switch_op ∷ []);
  mutate = λ n c. some (switch_op ∷ []);
}

abbrev subnet : Subnet
subnet = record {
  name = codes "default";
  phase = codes "Active";
  cidr = codes "10.244.1.11/29";
  gateway = codes "10.244.1.9";
  exclude_ips = [];
  namespaces = [];
  is_default = true;
  external_logical_switch = [];
  vlan_id = 0;
  provider = [];
}

abbrev nginx : Pod
nginx = record {
  name = codes "nginx";
  namespace = codes "web";
  uid = codes "7";
  annotations = [];
  finalizers = pod_finalizer ∷ [];
  host_network = false;
  phase = codes "Pending";
  is_deleted = false;
}

-- The API has one pod and one subnet; its state is the last pod written.
abbrev api_of : Pod → PodApi (Option Pod)
api_of pod = record {
  get_pod = λ namespace name k. found pod;
  get_subnet = λ n k. none;
  list_subnets = λ k. some (subnet ∷ []);
  update = λ p k. (some p, true);
}

abbrev start : State (Option Pod) (List LogicalSwitchPort)
start = record {
  kube = none;
  db = [];
  pod_allocations = [];
  allocators = (codes "default", small) ∷ [];
}

start-PodsBooked : PodsBooked (codes "default") start
unfolding lookup text_eq
start-PodsBooked =
    (small, refl, record { valid = small-IsValid; owned = tt; apart = tt; proper = tt })

chosen_name :
    (x : Subnet)
    → find_subnet_for_pod [] (codes "web") (λ m. none) (some (subnet ∷ [])) ≡ chosen x
    → x.name ≡ codes "default"
unfolding find_subnet_for_pod lookup text_eq
chosen_name x e = same e
  where
    same : chosen subnet ≡ chosen x → x.name ≡ codes "default"
    same h = let eq : subnet ≡ x = cc in ap (λ (y : Subnet). y.name) (sym eq)

no_annotation : (a : PodAnnotation) → get_pod_annotation [] ≡ annotated a → ⊥
unfolding get_pod_annotation lookup
no_annotation a e = other e
  where
    other : not_annotated ≡ annotated a → ⊥
    other h = cc

nginx_fits :
    (pod : Pod)
    → found nginx ≡ found pod
    → Selects (api_of nginx) ports switches (codes "default") pod start
      × Frees (api_of nginx) ports switches (codes "default") pod start
nginx_fits pod e =
    let same : nginx ≡ pod = cc in
    subst
      (λ p.
        Selects (api_of nginx) ports switches (codes "default") p start
        × Frees (api_of nginx) ports switches (codes "default") p start)
      same (chosen_name, λ a e named. absurd (no_annotation a e))

reconcile_pod-PodsBooked_example :
    PodsBooked
      (codes "default")
      (reconcile_pod (api_of nginx) ports switches (codes "web") (codes "nginx") start).0
reconcile_pod-PodsBooked_example =
    reconcile_pod-PodsBooked (api_of nginx) ports switches (codes "default") (codes "web")
      (codes "nginx") start nginx_fits start-PodsBooked

-- A pod that ran to its end and is being deleted keeps the finalizer: Reconcile writes nothing.
abbrev finished : Pod
finished = record nginx { phase = codes "Succeeded"; is_deleted = true }

finalizer_stays :
    (reconcile_pod (api_of finished) ports switches (codes "web") (codes "nginx") start
      ≡ (start, done))
    × contains_finalizer pod_finalizer finished.finalizers ≡ true
unfolding reconcile_pod contains_finalizer text_eq
finalizer_stays = (refl, refl)
