-- ===== src/Ovn/Policy/Reconcile.antt =====
-- pkg/ovn/policy_controller.go: Reconcile writes exactly the ACLs that a policy asks for.
use zstack_ovn_kubernetes.Base.{◌≡◌, List, [], ◌∷◌, ◌++◌, Text, codes, Option, none, some, ◌⊎◌}
use zstack_ovn_kubernetes.Ovndb.Errors.{Result, ok, err, wrapped, kubernetes_error}
use zstack_ovn_kubernetes.Ovndb.Acl.{Acl, NbClient, of_policy}
use zstack_ovn_kubernetes.Ovndb.Acl.Rows.{Table, select_rows, others}
use zstack_ovn_kubernetes.Ovn.Policy.{
  NetworkPolicy, Cluster, Lookup, found, absent, unreadable, get_pod_ips,
}
use zstack_ovn_kubernetes.Ovn.Policy.Desired.{desired_rows}
use zstack_ovn_kubernetes.Ovn.Policy.Appended.{view, Appended}

module _ {S Op : Type 0} (nb : NbClient S Op) (rows : S → List Acl)
    (effects : List Op → List Acl → List Acl) (table : Table nb rows effects) where
  -- The rows change in two parts: those of the policy go, and then new ones are added.
  abbrev pub without_policy : Text → Text → S → List Acl
  without_policy namespace name s =
      select_rows (others (of_policy namespace name)) (view nb rows effects table s)

  abbrev pub ReplacedOutcome : Text → Text → List Acl → S → S × Result Unit → Type 0
  ReplacedOutcome namespace name l s (t, ok x) =
      view nb rows effects table t ≡ without_policy namespace name s ++ l
  ReplacedOutcome namespace name l s (t, err e) =
      (view nb rows effects table t ≡ view nb rows effects table s)
      ⊎ ((a : List Acl) × (b : List Acl) × (l ≡ a ++ b)
          × (view nb rows effects table t ≡ without_policy namespace name s ++ a))

  -- What Reconcile of a name promises, from what the Kubernetes API answers: a policy that is gone has
  -- its rows removed; one that selects no pods is left alone; any other has exactly its rows replaced
  -- by those it asks for. A failure leaves the old rows, or a first part of the new ones.
  abbrev pub SelectedOutcome : NetworkPolicy → Option (List Text) → S → S × Result Unit → Type 0
  SelectedOutcome p none s r =
      r ≡ (s, err (wrapped (codes "failed to get selected pods") kubernetes_error))
  SelectedOutcome p (some []) s r = r ≡ (s, ok tt)
  SelectedOutcome p (some (pod ∷ pods)) s r =
      ReplacedOutcome p.namespace p.name (desired_rows p (get_pod_ips (pod ∷ pods)) p.policy_types)
        s r

  abbrev pub ReconcileOutcome : Cluster → Text → Text → Lookup → S → S × Result Unit → Type 0
  ReconcileOutcome cluster namespace name (found p) s r =
      SelectedOutcome p (cluster.get_selected_pods p) s r
  ReconcileOutcome cluster namespace name absent s r = ReplacedOutcome namespace name [] s r
  ReconcileOutcome cluster namespace name unreadable s r = r ≡ (s, err kubernetes_error)
