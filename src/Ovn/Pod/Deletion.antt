-- ===== src/Ovn/Pod/Deletion.antt =====
-- pkg/ovn/pod_controller.go: over a run of Reconcile, no address is recorded for two pods.
use zstack_ovn_kubernetes.Ovn.Finalizers.{contains_finalizer, remove_finalizer}
use zstack_ovn_kubernetes.Base.{
  either, ◌≡◌, refl, sym, subst, arith, text_eq_iff, All, Bool-cases, inl, inr, false, not, ◌||◌,
  [], ◌∷◌, ◌++◌, Text, Option, none, some, is_empty, text_eq,
}
use zstack_ovn_kubernetes.Base.Dict.{lookup, delete, lookup-insert}
use zstack_ovn_kubernetes.Net.Ip.{Ip, is_nil}
use zstack_ovn_kubernetes.Net.Parse.{parse_ip}
use zstack_ovn_kubernetes.Allocator.Subnet.{SubnetAllocator}
use zstack_ovn_kubernetes.Allocator.Subnet.Errors.{Outcome}
use zstack_ovn_kubernetes.Ovndb.LogicalSwitch.{SwitchClient}
use zstack_ovn_kubernetes.Ovndb.LogicalSwitchPort.{PortClient}
use zstack_ovn_kubernetes.Annotation.{PodAnnotation}
use zstack_ovn_kubernetes.Annotation.Operations.{
  AnnotationAnswer, not_annotated, annotated, unreadable, get_pod_annotation, has_pod_annotation,
  get_ip,
}
use zstack_ovn_kubernetes.Ovn.Pod.{
  Pod, PodRead, found, missing, failed, PodApi, State, update_failed, Answer, done, requeue,
  pod_finalizer, should_manage_pod, pod_key, cleanup_allocation, release_ip,
}
use zstack_ovn_kubernetes.Net.Ip.{to4}
use zstack_ovn_kubernetes.Net.Bytes.{IsByte}
use zstack_ovn_kubernetes.Allocator.Subnet.{release}
use zstack_ovn_kubernetes.Allocator.Subnet.Allocate.{same_address}
use zstack_ovn_kubernetes.Ovn.Pod.{released, release_from}
use zstack_ovn_kubernetes.Ovn.Pod.Booked.{addresses, cleanup_Booked}
use zstack_ovn_kubernetes.Ovn.Pod.Reconcile.{
  key_of, delete_pod_port, release_annotated, finish_deletion, after_release, handle_deletion,
  managed, reconcile_read, reconcile_pod,
}
use zstack_ovn_kubernetes.Ovn.Pod.Addresses.{
  PodsBooked, Cleaned, cleanup-PodsBooked, release_ip-Cleaned, after_update-PodsBooked, Selects,
  configure_pod_network-PodsBooked,
}

module _ {K S : Type 0} (key n : Text) where
  -- A release in another subnet.
  other_released :
      (m : Text) (s : State K S) (r : Outcome SubnetAllocator)
      → text_eq m n ≡ false
      → PodsBooked n s
      → Cleaned key n s (released m s r)
  other_released m s (Outcome.ok b) e (a, l, h) = (
    a,
    ground (arith, lookup-insert m n b s.allocators),
    cleanup_Booked a key s.pod_allocations h,
  )
  other_released m s (Outcome.err x) e h = cleanup-PodsBooked key n s h
  other_released m s Outcome.panic e h = tt
  other_released m s Outcome.running e h = tt

  other_release_from :
      (m : Text) (ip : Ip) (s : State K S) (r : Option SubnetAllocator)
      → text_eq m n ≡ false
      → PodsBooked n s
      → Cleaned key n s (release_from m ip s r)
  other_release_from m ip s none e h = cleanup-PodsBooked key n s h
  other_release_from m ip s (some b) e h = other_released m s (release b ip) e h

module _ {K S Op : Type 0} (api : PodApi K) (ports : PortClient S Op) (switches : SwitchClient S Op)
    (n : Text) where
  -- A pod's annotation of the subnet names no address that is recorded for another pod.
  abbrev pub Frees : Pod → State K S → Type 0
  Frees pod s =
      (a : PodAnnotation)
      → get_pod_annotation pod.annotations ≡ annotated a
      → a.subnet ≡ n
      → All IsByte (to4 (parse_ip (get_ip a)))
        × All (λ q. same_address (parse_ip (get_ip a)) q ≡ false)
            (addresses (delete (key_of pod) s.pod_allocations))

  release_named :
      (key m : Text) (ip : Ip) (s : State K S)
      → (m ≡ n
          → All IsByte (to4 ip)
            × All (λ q. same_address ip q ≡ false) (addresses (delete key s.pod_allocations)))
      → PodsBooked n s
      → Cleaned key n s (release_ip m ip s)
  unfolding release_ip
  release_named key m ip s frees h = elim (Bool-cases (text_eq m n)) [
    | inl same ↦
        let e = (text_eq_iff m n).0 same in
        let f = frees e in
        subst (λ x. Cleaned key n s (release_ip x ip s)) (sym e)
          (release_ip-Cleaned key n ip s f.0 f.1 h)
    | inr other ↦ other_release_from key n m ip s (lookup m s.allocators) other h
  ]

  release_annotated-Cleaned :
      (pod : Pod) (s : State K S) (x : AnnotationAnswer)
      → get_pod_annotation pod.annotations ≡ x
      → Frees pod s
      → PodsBooked n s
      → Cleaned (key_of pod) n s (release_annotated api ports switches s x)
  release_annotated-Cleaned pod s not_annotated e frees h = cleanup-PodsBooked (key_of pod) n s h
  release_annotated-Cleaned pod s unreadable e frees h = cleanup-PodsBooked (key_of pod) n s h
  release_annotated-Cleaned pod s (annotated a) e frees h =
      elim (Bool-cases
        (is_empty a.subnet || (is_empty (get_ip a) || is_nil (parse_ip (get_ip a))))) [
          | inl skipped ↦ rw skipped (cleanup-PodsBooked (key_of pod) n s h)
          | inr given ↦
              rw given (release_named (key_of pod) a.subnet (parse_ip (get_ip a)) s (frees a e) h)
        ]

  finish_deletion-PodsBooked :
      (pod : Pod) (s : State K S)
      → PodsBooked n (cleanup_allocation (key_of pod) s)
      → PodsBooked n (finish_deletion api ports switches pod s).0
  finish_deletion-PodsBooked pod s h =
      either (λ (r : State K S × Answer). PodsBooked n r.0)
        (contains_finalizer pod_finalizer pod.finalizers) _ _
        (after_update-PodsBooked api ports switches n update_failed done
          (cleanup_allocation (key_of pod) s)
          (api.update (record pod { finalizers = remove_finalizer pod_finalizer pod.finalizers })
            s.kube)
          h)
        h

  after_release-PodsBooked :
      (pod : Pod) (s : State K S) (r : Outcome (State K S))
      → Cleaned (key_of pod) n s r
      → PodsBooked n s
      → PodsBooked n (after_release api ports switches pod s r).0
  after_release-PodsBooked pod s (Outcome.ok t) c h = finish_deletion-PodsBooked pod t c
  after_release-PodsBooked pod s (Outcome.err e) c h = finish_deletion-PodsBooked pod s c
  after_release-PodsBooked pod s Outcome.panic c h = h
  after_release-PodsBooked pod s Outcome.running c h = h

  handle_deletion-PodsBooked :
      (pod : Pod) (s : State K S)
      → Frees pod s
      → PodsBooked n s
      → PodsBooked n (handle_deletion api ports switches pod s).0
  unfolding handle_deletion
  handle_deletion-PodsBooked pod s frees h =
      let x = get_pod_annotation pod.annotations in
      let t = record s { db = delete_pod_port api ports switches pod s.db x } in
      after_release-PodsBooked pod t (release_annotated api ports switches t x)
        (release_annotated-Cleaned pod t x refl frees h) h

  managed-PodsBooked :
      (pod : Pod) (s : State K S)
      → Selects api ports switches n pod s
      → Frees pod s
      → PodsBooked n s
      → PodsBooked n (managed api ports switches pod s).0
  managed-PodsBooked pod s one frees h =
      either (λ (r : State K S × Answer). PodsBooked n r.0) pod.is_deleted _ _
        (handle_deletion-PodsBooked pod s frees h)
        (either (λ (r : State K S × Answer). PodsBooked n r.0)
          (not (contains_finalizer pod_finalizer pod.finalizers)) _ _
          (after_update-PodsBooked api ports switches n update_failed requeue s
            (api.update (record pod { finalizers = pod.finalizers ++ pod_finalizer ∷ [] }) s.kube)
            h)
          (either (λ (r : State K S × Answer). PodsBooked n r.0)
            (has_pod_annotation pod.annotations) _ _ h
            (configure_pod_network-PodsBooked api ports switches n pod s one h)))

  reconcile_read-PodsBooked :
      (key : Text) (s : State K S) (r : PodRead)
      → ((pod : Pod) → r ≡ found pod → Selects api ports switches n pod s × Frees pod s)
      → PodsBooked n s
      → PodsBooked n (reconcile_read api ports switches key s r).0
  reconcile_read-PodsBooked key s missing fits h = cleanup-PodsBooked key n s h
  reconcile_read-PodsBooked key s failed fits h = h
  reconcile_read-PodsBooked key s (found pod) fits h =
      let f = fits pod refl in
      either (λ (r : State K S × Answer). PodsBooked n r.0) (should_manage_pod pod) _ _
        (managed-PodsBooked pod s f.0 f.1 h) h

  -- Take a subnet with a valid allocator in which every address of the pods' records is taken, with no
  -- address recorded for two pods. Reconcile of a pod leaves all this so, whatever it does and whatever
  -- the database and the API answer: where it chooses a subnet, it is this one, and the annotation of
  -- the pod, if it has one of this subnet, names no address that is recorded for another pod.
  pub reconcile_pod-PodsBooked :
      (namespace name : Text) (s : State K S)
      → ((pod : Pod)
          → api.get_pod namespace name s.kube ≡ found pod
          → Selects api ports switches n pod s × Frees pod s)
      → PodsBooked n s
      → PodsBooked n (reconcile_pod api ports switches namespace name s).0
  unfolding reconcile_pod
  reconcile_pod-PodsBooked namespace name s fits h =
      reconcile_read-PodsBooked (pod_key namespace name) s (api.get_pod namespace name s.kube) fits
        h
