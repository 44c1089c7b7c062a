-- ===== src/Ovn/Policy/Success.antt =====
-- pkg/ovn/policy_controller.go: Reconcile succeeds where the database does.
use zstack_ovn_kubernetes.Base.{
  ℕ, zero, suc, ◌+◌, ◌≤◌, ◌≡◌, refl, Bool, true, false, List, [], ◌∷◌, ◌++◌, Text, codes, Option,
  none, some, pos, is_empty, Bool-cases, inl, inr, arith, length, text_eq, ℤ,
}
use zstack_ovn_kubernetes.Base.Dict.{Dict}
use zstack_ovn_kubernetes.Ovndb.Errors.{Result, ok, Step, follow}
use zstack_ovn_kubernetes.Ovndb.Transact.{replies, transact_and_check, transact_with_retry}
use zstack_ovn_kubernetes.Ovndb.Acl.{
  Acl, NbClient, create_acl, created_acl, delete_acls_by_policy, delete_ops, list_acls_by_policy,
  list_acls_with_predicate, of_policy, direction_valid, action_valid, priority_valid,
  commit_deletes, policy_ref, first_uuid,
}
use zstack_ovn_kubernetes.Ovn.Policy.{
  NetworkPolicy, Cluster, found, create_policy_acl, create_peer_acls, create_rule_acls,
  create_side_acls, create_type_acls, create_all_acls, process_network_policy, reconcile_policy,
  get_pod_ips, side_of, rules_of, rule_match, rule_index, deny_message, allow_message,
  build_policy_external_ids,
}
use zstack_ovn_kubernetes.Ovn.Policy.Match.{
  Rule, Side, ingress, egress, side_text, build_policy_acl_name, get_acl_direction,
  get_acl_priority, get_peer_count, build_default_deny_match,
}

-- A database that is connected, knows every operation, and applies every transaction.
pub record Healthy {S Op : Type 0} (nb : NbClient S Op) : Type 0 where
  pub up : (s : S) → nb.connected s ≡ true
  pub creates : (a : Acl) → (ops : List Op) × (nb.create a ≡ some ops)
  pub deletes : (a : Acl) → (ops : List Op) × (nb.delete a ≡ some ops)
  pub selects : (p : Acl → Bool) (s : S) → (rows : List Acl) × (nb.select p s ≡ some rows)
  pub applies :
      (ops : List Op) (s : S)
      → (t : S) × (us : List Text) × (nb.client.transact ops s ≡ (t, replies us))
        × (nb.client.check_results us ops ≡ true)
  pub polled : (k : ℕ) × (nb.polls ≡ suc k)

abbrev pub Succeeds : {S A : Type 0} → S × Result A → Type 0
Succeeds {S} {A} r = (t : S) × (a : A) × (r ≡ (t, ok a))

module _ {S Op : Type 0} (nb : NbClient S Op) (h : Healthy nb) where
  transact-Succeeds :
      (ops : List Op) (s : S) → Succeeds (transact_and_check nb.client nb.polls ops s)
  unfolding transact_and_check transact_with_retry
  transact-Succeeds [] s = (s, [] ∷ [], refl)
  transact-Succeeds (op ∷ ops) s =
      let (t, us, sent, good) = h.applies (op ∷ ops) s in
      let (k, polls) = h.polled in (t, us, rw (polls, transact_with_retry, sent, good) refl)

  delete_ops-some : (rows : List Acl) → (ops : List Op) × (delete_ops nb rows ≡ some ops)
  unfolding delete_ops
  delete_ops-some [] = ([], refl)
  delete_ops-some (a ∷ rows) =
      let (p, first) = h.deletes a in
      let (q, rest) = delete_ops-some rows in (p ++ q, rw (first, rest) refl)

  commit_deletes-Succeeds :
      (ref : Text) (ops : List Op) (s : S) → Succeeds (commit_deletes nb ref (some ops) s)
  commit_deletes-Succeeds ref [] s = (s, tt, refl)
  commit_deletes-Succeeds ref (op ∷ ops) s =
      let (t, us, e) = transact-Succeeds (op ∷ ops) s in (t, tt, rw e refl)

  delete_acls_by_policy-Succeeds :
      (namespace name : Text) (s : S) → Succeeds (delete_acls_by_policy nb namespace name s)
  unfolding delete_acls_by_policy list_acls_by_policy list_acls_with_predicate
  delete_acls_by_policy-Succeeds namespace name s =
      let (rows, listed) = h.selects (of_policy namespace name) s in
      let (ops, made) = delete_ops-some rows in
      let (t, x, e) = commit_deletes-Succeeds (policy_ref namespace name) ops s in
      let on = h.up s in
      (t, x, rw (on, listed, delete_acls_by_policy, list_acls_by_policy) (rw (on, made) e))

  create_acl-Succeeds :
      (name : Option Text) (direction : Text) (priority : ℤ) (expr action : Text) (ids : Dict Text)
      (s : S)
      → direction_valid direction ≡ true
      → priority_valid priority ≡ true
      → action_valid action ≡ true
      → is_empty expr ≡ false
      → Succeeds (create_acl nb name direction priority expr action ids s)
  unfolding create_acl
  create_acl-Succeeds name direction priority expr action ids s d p x m =
      let row = created_acl name direction priority expr action ids in
      let (ops, made) = h.creates row in
      let (t, us, e) = transact-Succeeds ops s in
      let on = h.up s in (t, first_uuid row us, rw (d, p, x, m, on, create_acl, made) (rw e refl))

  follow-Succeeds :
      (r : S × Result Unit) (f : Unit → Step S Unit)
      → Succeeds r
      → ((u : S) → Succeeds (f tt u))
      → Succeeds (follow f r)
  follow-Succeeds r f (t, tt, e) k = rw e (k t)

  create_policy_acl-Succeeds :
      (message : Text) (p : NetworkPolicy) (side : Side) (index : Text) (priority : ℕ)
      (expr action : Text) (s : S)
      → priority ≤ 32767
      → action_valid action ≡ true
      → Succeeds (create_policy_acl nb message p side index priority expr action s)
  unfolding create_policy_acl
  create_policy_acl-Succeeds message p side index priority expr action s low x =
      elim (Bool-cases (is_empty expr)) [
        | inl skip ↦ rw (skip, create_policy_acl) (s, tt, refl)
        | inr keep ↦
            let (t, row, e) =
              create_acl-Succeeds
                (some (build_policy_acl_name p.namespace p.name (side_text side) index))
                (get_acl_direction side) (pos priority) expr action
                (build_policy_external_ids p.namespace p.name side) s (known side) (ground arith) x
                keep in
            (t, tt, rw (keep, create_policy_acl) (rw e refl))
      ]
    where
      known : (d : Side) → direction_valid (get_acl_direction d) ≡ true
      known ingress = unfold text_eq in refl
      known egress = unfold text_eq in refl

  create_peer_acls-Succeeds :
      (p : NetworkPolicy) (side : Side) (rule : ℕ) (expr : Text) (peer n : ℕ) (s : S)
      → 1001 + rule ≤ 32767
      → Succeeds (create_peer_acls nb p side rule expr peer n s)
  unfolding create_peer_acls
  create_peer_acls-Succeeds p side rule expr peer zero s low = (s, tt, refl)
  create_peer_acls-Succeeds p side rule expr peer (suc n) s low =
      follow-Succeeds
        (create_policy_acl nb (allow_message side) p side (rule_index rule peer)
          (get_acl_priority side false rule) expr (codes "allow") s)
        (λ x. create_peer_acls nb p side rule expr (suc peer) n)
        (create_policy_acl-Succeeds (allow_message side) p side (rule_index rule peer)
          (get_acl_priority side false rule) expr (codes "allow") s (allow_low side)
          (unfold text_eq in refl))
        (λ u. create_peer_acls-Succeeds p side rule expr (suc peer) n u low)
    where
      allow_low : (d : Side) → get_acl_priority d false rule ≤ 32767
      allow_low ingress = low
      allow_low egress = low

  create_rule_acls-Succeeds :
      (p : NetworkPolicy) (side : Side) (ips : List Text) (rule : ℕ) (rules : List Rule) (s : S)
      → 1000 + rule + length rules ≤ 32767
      → Succeeds (create_rule_acls nb p side ips rule rules s)
  unfolding create_rule_acls
  create_rule_acls-Succeeds p side ips rule [] s low = (s, tt, refl)
  create_rule_acls-Succeeds p side ips rule (r ∷ rules) s low =
      follow-Succeeds
        (create_peer_acls nb p side rule (rule_match side ips r) 0 (get_peer_count r.peers) s)
        (λ x. create_rule_acls nb p side ips (suc rule) rules)
        (create_peer_acls-Succeeds p side rule (rule_match side ips r) 0 (get_peer_count r.peers) s
          (omega arith))
        (λ u. create_rule_acls-Succeeds p side ips (suc rule) rules u (omega arith))

  create_side_acls-Succeeds :
      (p : NetworkPolicy) (side : Side) (ips : List Text) (s : S)
      → length (rules_of side p) ≤ 31767
      → Succeeds (create_side_acls nb p side ips s)
  unfolding create_side_acls
  create_side_acls-Succeeds p side ips s low =
      follow-Succeeds
        (create_policy_acl nb (deny_message side) p side (codes "default")
          (get_acl_priority side true 0) (build_default_deny_match ips side) (codes "drop") s)
        (λ x. create_rule_acls nb p side ips 0 (rules_of side p))
        (create_policy_acl-Succeeds (deny_message side) p side (codes "default")
          (get_acl_priority side true 0) (build_default_deny_match ips side) (codes "drop") s
          (deny_low side) (unfold text_eq in refl))
        (λ u. create_rule_acls-Succeeds p side ips 0 (rules_of side p) u (omega arith))
    where
      deny_low : (d : Side) → get_acl_priority d true 0 ≤ 32767
      deny_low ingress = omega arith
      deny_low egress = omega arith

  -- Both directions of a policy have priorities left for their rules.
  abbrev pub Fits : NetworkPolicy → Type 0
  Fits p = (length p.ingress_rules ≤ 31767) × (length p.egress_rules ≤ 31767)

  create_type_acls-Succeeds :
      (p : NetworkPolicy) (ips : List Text) (side : Option Side) (s : S)
      → Fits p
      → Succeeds (create_type_acls nb p ips side s)
  create_type_acls-Succeeds p ips none s fits = (s, tt, refl)
  create_type_acls-Succeeds p ips (some ingress) s fits =
      let (t, x, e) = create_side_acls-Succeeds p ingress ips s fits.0 in (t, tt, rw e refl)
  create_type_acls-Succeeds p ips (some egress) s fits =
      let (t, x, e) = create_side_acls-Succeeds p egress ips s fits.1 in (t, tt, rw e refl)

  create_all_acls-Succeeds :
      (p : NetworkPolicy) (ips types : List Text) (s : S)
      → Fits p
      → Succeeds (create_all_acls nb p ips types s)
  unfolding create_all_acls
  create_all_acls-Succeeds p ips [] s fits = (s, tt, refl)
  create_all_acls-Succeeds p ips (t ∷ types) s fits =
      follow-Succeeds (create_type_acls nb p ips (side_of t) s)
        (λ x. create_all_acls nb p ips types) (create_type_acls-Succeeds p ips (side_of t) s fits)
        (λ u. create_all_acls-Succeeds p ips types u fits)

  -- On a healthy database, Reconcile of a policy that selects at least one pod succeeds, when the policy
  -- has at most 31767 rules in each direction, for which there are priorities up to 32767.
  pub reconcile_policy-Succeeds :
      (cluster : Cluster) (p : NetworkPolicy) (pod : Text) (pods : List Text) (s : S)
      → cluster.get_policy p.namespace p.name ≡ found p
      → cluster.get_selected_pods p ≡ some (pod ∷ pods)
      → Fits p
      → Succeeds (reconcile_policy nb cluster p.namespace p.name s)
  unfolding reconcile_policy process_network_policy
  reconcile_policy-Succeeds cluster p pod pods s known selected fits =
      let (t, x, e) = delete_acls_by_policy-Succeeds p.namespace p.name s in
      rw (known, reconcile_policy)
        (rw selected
          (rw e (create_all_acls-Succeeds p (get_pod_ips (pod ∷ pods)) p.policy_types t fits)))
