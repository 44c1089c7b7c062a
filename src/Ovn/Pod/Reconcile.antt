-- ===== src/Ovn/Pod/Reconcile.antt =====
-- pkg/ovn/pod_controller.go: configurePodNetwork, handleDeletion and Reconcile.
use zstack_ovn_kubernetes.Ovn.Finalizers.{contains_finalizer, remove_finalizer}
use zstack_ovn_kubernetes.Base.{
  Bool, true, false, not, ◌&&◌, ◌||◌, [], ◌∷◌, ◌++◌, Text, codes, Option, none, some, if◌then◌else◌,
  is_empty,
}
use zstack_ovn_kubernetes.Base.Dict.{Dict, lookup}
use zstack_ovn_kubernetes.Net.Ip.{Ip, IpNet, is_nil}
use zstack_ovn_kubernetes.Net.Parse.{parse_ip, parse_cidr}
use zstack_ovn_kubernetes.Net.Util.{generate_mac}
use zstack_ovn_kubernetes.Allocator.Subnet.{SubnetAllocator}
use zstack_ovn_kubernetes.Allocator.Subnet.Errors.{Outcome}
use zstack_ovn_kubernetes.Ovndb.Errors.{Result, ok, err}
use zstack_ovn_kubernetes.Ovndb.LogicalSwitch.{SwitchClient}
use zstack_ovn_kubernetes.Ovndb.LogicalSwitchPort.{
  LogicalSwitchPort, PortClient, get_logical_switch_port, delete_logical_switch_port,
}
use zstack_ovn_kubernetes.Ovndb.PortName.{build_port_name}
use zstack_ovn_kubernetes.Annotation.{PodAnnotation}
use zstack_ovn_kubernetes.Annotation.Operations.{
  AnnotationAnswer, not_annotated, annotated, unreadable, get_pod_annotation, set_pod_annotation,
  has_pod_annotation, new_pod_annotation, get_ip,
}
use zstack_ovn_kubernetes.Ovn.Subnets.{
  Subnet, Selection, chosen, no_subnet, not_found, not_active, list_failed, find_subnet_for_pod,
  get_logical_switch_name,
}
use zstack_ovn_kubernetes.Ovn.Pod.{
  Pod, PodRead, found, missing, failed, PodApi, State, Failure, get_failed, update_failed,
  subnet_failed, allocator_not_ready, not_allocated, port_failed, Answer, done, requeue, failure,
  panicked, unfinished, pod_finalizer, should_manage_pod, pod_key, ip_text, with_prefix,
  cleanup_allocation, allocate_ip, release_ip, create_pod_port,
}

abbrev pub key_of : Pod → Text
key_of pod = pod_key pod.namespace pod.name

module _ {K S Op : Type 0} (api : PodApi K) (ports : PortClient S Op)
    (switches : SwitchClient S Op) where
  abbrev pub after_update : Failure → Answer → State K S → K × Bool → State K S × Answer
  after_update e answer s (k, true) = (record s { kube = k }, answer)
  after_update e answer s (k, false) = (record s { kube = k }, failure e)

  -- client.Update.
  abbrev pub update_pod : Pod → State K S → State K S × Answer
  update_pod pod s = after_update update_failed done s (api.update pod s.kube)

  -- Release and cleanupAllocation after a port that was not created; an error of Release is dropped.
  abbrev pub given_back : Text → State K S → Failure → Outcome (State K S) → State K S × Answer
  given_back key s e (Outcome.ok t) = (cleanup_allocation key t, failure e)
  given_back key s e (Outcome.err x) = (cleanup_allocation key s, failure e)
  given_back key s e Outcome.panic = (s, panicked)
  given_back key s e Outcome.running = (s, unfinished)

  abbrev pub annotation_for : Pod → Subnet → Ip → IpNet → PodAnnotation
  annotation_for pod subnet ip net =
      new_pod_annotation (with_prefix ip net) (generate_mac ip) subnet.gateway subnet.name
        (get_logical_switch_name subnet) (build_port_name pod.namespace pod.name)

  abbrev pub annotate : Pod → Subnet → Ip → IpNet → Pod
  annotate pod subnet ip net = record pod {
    annotations = set_pod_annotation (annotation_for pod subnet ip net) pod.annotations;
  }

  abbrev pub after_port :
      Pod → Subnet → Ip → IpNet → State K S → S × Result Unit → State K S × Answer
  after_port pod subnet ip net s (d, ok u) =
      update_pod (annotate pod subnet ip net) (record s { db = d })
  after_port pod subnet ip net s (d, err e) =
      given_back (key_of pod) (record s { db = d }) (port_failed e)
        (release_ip subnet.name ip (record s { db = d }))

  -- A CIDR that does not parse leaves a nil network.
  abbrev pub after_cidr : Pod → Subnet → Ip → State K S → Option (Ip × IpNet) → State K S × Answer
  after_cidr pod subnet ip s none = (s, panicked)
  after_cidr pod subnet ip s (some (base, net)) = after_port pod subnet ip net s (
      create_pod_port ports switches pod (get_logical_switch_name subnet)
        (build_port_name pod.namespace pod.name) (generate_mac ip) (ip_text ip) s.db)

  abbrev pub after_ip : Pod → Subnet → State K S × Outcome Ip → State K S × Answer
  after_ip pod subnet (s, Outcome.ok ip) = after_cidr pod subnet ip s (parse_cidr subnet.cidr)
  after_ip pod subnet (s, Outcome.err e) = (s, failure (not_allocated e))
  after_ip pod subnet (s, Outcome.panic) = (s, panicked)
  after_ip pod subnet (s, Outcome.running) = (s, unfinished)

  abbrev pub with_allocator : Pod → Subnet → State K S → Option SubnetAllocator → State K S × Answer
  with_allocator pod subnet s none = (s, failure (allocator_not_ready subnet.name))
  with_allocator pod subnet s (some a) =
      after_ip pod subnet (allocate_ip (key_of pod) subnet.name a s)

  abbrev pub with_selection : Pod → State K S → Selection → State K S × Answer
  with_selection pod s (chosen subnet) =
      with_allocator pod subnet s (lookup subnet.name s.allocators)
  with_selection pod s no_subnet = (s, requeue)
  with_selection pod s (not_found n) = (s, failure (subnet_failed (not_found n)))
  with_selection pod s (not_active n) = (s, failure (subnet_failed (not_active n)))
  with_selection pod s list_failed = (s, failure (subnet_failed list_failed))

  unfoldable pub configure_pod_network : Pod → State K S → State K S × Answer
  unfolding find_subnet_for_pod allocate_ip release_ip create_pod_port set_pod_annotation
      generate_mac parse_cidr build_port_name
  configure_pod_network pod s = with_selection pod s (
      find_subnet_for_pod pod.annotations pod.namespace (λ n. api.get_subnet n s.kube)
        (api.list_subnets s.kube))

  -- The error of a deletion of the port is logged.
  abbrev pub delete_port : Text → Text → S → S
  delete_port switch port d = (delete_logical_switch_port ports switches switch port d).0

  abbrev pub switch_of : Option (Dict Text) → Option Text
  switch_of none = none
  switch_of (some ids) = lookup (codes "logical_switch") ids

  abbrev pub delete_from : Text → S → Option Text → S
  delete_from port d none = d
  delete_from port d (some switch) = if is_empty switch then d else delete_port switch port d

  abbrev pub delete_row : Text → S × Result LogicalSwitchPort → S
  delete_row port (d, err e) = d
  delete_row port (d, ok row) = delete_from port d (switch_of row.external_ids)

  -- Without an annotation that names both, the port is looked up by its name.
  abbrev pub delete_by_name : Text → S → S
  delete_by_name port d = delete_row port (get_logical_switch_port ports switches port d)

  abbrev pub delete_pod_port : Pod → S → AnnotationAnswer → S
  delete_pod_port pod d (annotated a) =
      if not (is_empty a.logical_switch) && not (is_empty a.logical_switch_port)
      then delete_port a.logical_switch a.logical_switch_port d
      else delete_by_name (build_port_name pod.namespace pod.name) d
  delete_pod_port pod d not_annotated = delete_by_name (build_port_name pod.namespace pod.name) d
  delete_pod_port pod d unreadable = delete_by_name (build_port_name pod.namespace pod.name) d

  abbrev pub release_annotated : State K S → AnnotationAnswer → Outcome (State K S)
  release_annotated s not_annotated = Outcome.ok s
  release_annotated s unreadable = Outcome.ok s
  release_annotated s (annotated a) =
      if is_empty a.subnet || (is_empty (get_ip a) || is_nil (parse_ip (get_ip a)))
      then Outcome.ok s
      else release_ip a.subnet (parse_ip (get_ip a)) s

  abbrev pub finish_deletion : Pod → State K S → State K S × Answer
  finish_deletion pod s =
      if contains_finalizer pod_finalizer pod.finalizers
      then update_pod (record pod { finalizers = remove_finalizer pod_finalizer pod.finalizers })
          (cleanup_allocation (key_of pod) s)
      else (cleanup_allocation (key_of pod) s, done)

  -- An error of Release is logged.
  abbrev pub after_release : Pod → State K S → Outcome (State K S) → State K S × Answer
  after_release pod s (Outcome.ok t) = finish_deletion pod t
  after_release pod s (Outcome.err e) = finish_deletion pod s
  after_release pod s Outcome.panic = (s, panicked)
  after_release pod s Outcome.running = (s, unfinished)

  unfoldable pub handle_deletion : Pod → State K S → State K S × Answer
  unfolding get_pod_annotation get_logical_switch_port delete_logical_switch_port release_ip
      remove_finalizer contains_finalizer parse_ip get_ip build_port_name
  handle_deletion pod s =
      let answer = get_pod_annotation pod.annotations in
      let t = record s { db = delete_pod_port pod s.db answer } in
      after_release pod t (release_annotated t answer)

  abbrev pub managed : Pod → State K S → State K S × Answer
  managed pod s =
      if pod.is_deleted
      then handle_deletion pod s
      else if not (contains_finalizer pod_finalizer pod.finalizers)
      then after_update update_failed requeue s
          (api.update (record pod { finalizers = pod.finalizers ++ pod_finalizer ∷ [] }) s.kube)
      else if has_pod_annotation pod.annotations
      then (s, done)
      else configure_pod_network pod s

  abbrev pub reconcile_read : Text → State K S → PodRead → State K S × Answer
  reconcile_read key s missing = (cleanup_allocation key s, done)
  reconcile_read key s failed = (s, failure get_failed)
  reconcile_read key s (found pod) = if should_manage_pod pod then managed pod s else (s, done)

  unfoldable pub reconcile_pod : Text → Text → State K S → State K S × Answer
  unfolding configure_pod_network handle_deletion should_manage_pod has_pod_annotation
      contains_finalizer
  reconcile_pod namespace name s =
      reconcile_read (pod_key namespace name) s (api.get_pod namespace name s.kube)
