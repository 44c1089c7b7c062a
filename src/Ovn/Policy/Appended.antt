-- ===== src/Ovn/Policy/Appended.antt =====
-- pkg/ovn/policy_controller.go: the creating functions add the rows that a policy asks for.
use zstack_ovn_kubernetes.Base.{
  ℕ, zero, suc, ◌+◌, ◌≡◌, refl, sym, subst, ap, ◌∙◌, true, false, List, [], ◌∷◌, ◌++◌, map,
  append-nil, append_assoc, Text, codes, Option, none, some, pos, is_empty, Bool-cases, inl, inr,
  arith,
}
use zstack_ovn_kubernetes.Ovndb.Errors.{Result, ok, err, Step, done, follow, wrap_result}
use zstack_ovn_kubernetes.Ovndb.Acl.{Acl, NbClient, create_acl, created_acl}
use zstack_ovn_kubernetes.Ovndb.Acl.Rows.{content, Table, CreatedOutcome, create_acl-CreatedOutcome}
use zstack_ovn_kubernetes.Ovn.Policy.{
  NetworkPolicy, deny_message, allow_message, create_policy_acl, create_peer_acls, create_rule_acls,
  create_side_acls, create_type_acls, create_all_acls, side_of, rules_of, rule_match, rule_index,
  build_policy_external_ids,
}
use zstack_ovn_kubernetes.Ovn.Policy.Match.{
  Rule, Side, ingress, egress, side_text, build_policy_acl_name, get_acl_direction,
  get_acl_priority, get_peer_count, build_default_deny_match,
}
use zstack_ovn_kubernetes.Ovn.Policy.Desired.{
  policy_row, unless_empty, peer_rows, numbers, allow_row, rule_rows, side_rows, deny_rows,
  type_rows, desired_rows,
}

module _ {S Op : Type 0} (nb : NbClient S Op) (rows : S → List Acl)
    (effects : List Op → List Acl → List Acl) (table : Table nb rows effects) where
  -- The rows without their UUIDs.
  abbrev pub view : S → List Acl
  view s = map content (rows s)

  -- The step adds these rows, in this order; where it fails, a first part of them.
  abbrev pub Appended : List Acl → S → S × Result Unit → Type 0
  Appended l s (t, ok x) = view t ≡ view s ++ l
  Appended l s (t, err e) = (a : List Acl) × (b : List Acl) × (l ≡ a ++ b) × (view t ≡ view s ++ a)

  nothing-Appended : (s : S) → Appended [] s (s, ok tt)
  nothing-Appended s = sym (append-nil (view s))

  later-Appended :
      (l m : List Acl) (s u : S) (r : S × Result Unit)
      → view u ≡ view s ++ l
      → Appended m u r
      → Appended (l ++ m) s r
  later-Appended l m s u (t, ok x) e h = h ∙ ap (λ v. v ++ m) e ∙ append_assoc (view s) l m
  later-Appended l m s u (t, err x) e (a, b, split, h) = (
    l ++ a,
    b,
    ap (λ v. l ++ v) split ∙ sym (append_assoc l a b),
    h ∙ ap (λ v. v ++ a) e ∙ append_assoc (view s) l a,
  )

  follow-Appended :
      (l m : List Acl) (s : S) (r : S × Result Unit) (f : Unit → Step S Unit)
      → Appended l s r
      → ((u : S) → Appended m u (f tt u))
      → Appended (l ++ m) s (follow f r)
  follow-Appended l m s (u, ok x) f h k = later-Appended l m s u (f tt u) h (k u)
  follow-Appended l m s (t, err x) f (a, b, split, h) k =
      (a, b ++ m, ap (λ v. v ++ m) split ∙ append_assoc a b m, h)

  wrap-Appended :
      (message : Text) (l : List Acl) (s : S) (r : S × Result Unit)
      → Appended l s r
      → Appended l s (wrap_result message r)
  wrap-Appended message l s (t, ok x) h = h
  wrap-Appended message l s (t, err x) h = h

  created-Appended :
      (message : Text) (a : Acl) (s : S) (r : S × Result Acl)
      → CreatedOutcome nb rows effects table a s r
      → Appended (content a ∷ []) s (follow (λ b. done tt) (wrap_result message r))
  created-Appended message a s (t, ok b) (good, same, h) = h
  created-Appended message a s (t, err x) h =
      ([], content a ∷ [], refl, ap (map content) h ∙ sym (append-nil (view s)))

  create_policy_acl-Appended :
      (message : Text) (p : NetworkPolicy) (side : Side) (index : Text) (priority : ℕ)
      (expr action : Text) (s : S)
      → Appended
          (unless_empty expr (policy_row p side index priority expr action ∷ []))
          s
          (create_policy_acl nb message p side index priority expr action s)
  unfolding create_policy_acl
  create_policy_acl-Appended message p side index priority expr action s =
      elim (Bool-cases (is_empty expr)) [
        | inl none_left ↦ rw (none_left, create_policy_acl) (nothing-Appended s)
        | inr some_left ↦
            let name = some (build_policy_acl_name p.namespace p.name (side_text side) index) in
            let ids = build_policy_external_ids p.namespace p.name side in
            rw (some_left, create_policy_acl)
              (created-Appended message
                (created_acl name (get_acl_direction side) (pos priority) expr action ids) s
                (create_acl nb name (get_acl_direction side) (pos priority) expr action ids s)
                (create_acl-CreatedOutcome nb rows effects table name (get_acl_direction side)
                  (pos priority) expr action ids s))
      ]

  one_peer_more :
      (p : NetworkPolicy) (side : Side) (rule : ℕ) (expr : Text) (peer n : ℕ)
      → unless_empty expr (allow_row p side rule expr peer ∷ [])
          ++ peer_rows p side rule expr (suc peer) n
        ≡ peer_rows p side rule expr peer (suc n)
  unfolding numbers
  one_peer_more p side rule expr peer n = ground arith

  create_peer_acls-Appended :
      (p : NetworkPolicy) (side : Side) (rule : ℕ) (expr : Text) (peer n : ℕ) (s : S)
      → Appended
          (peer_rows p side rule expr peer n)
          s
          (create_peer_acls nb p side rule expr peer n s)
  unfolding create_peer_acls numbers
  create_peer_acls-Appended p side rule expr peer zero s = elim (Bool-cases (is_empty expr)) [
    | inl e ↦ rw e (nothing-Appended s)
    | inr e ↦ rw e (nothing-Appended s)
  ]
  create_peer_acls-Appended p side rule expr peer (suc n) s =
      subst (λ l. Appended l s (create_peer_acls nb p side rule expr peer (suc n) s))
        (one_peer_more p side rule expr peer n)
        (follow-Appended (unless_empty expr (allow_row p side rule expr peer ∷ []))
          (peer_rows p side rule expr (suc peer) n) s
          (create_policy_acl nb (allow_message side) p side (rule_index rule peer)
            (get_acl_priority side false rule) expr (codes "allow") s)
          (λ x. create_peer_acls nb p side rule expr (suc peer) n)
          (rw (allow_priority side) (
            create_policy_acl-Appended (allow_message side) p side (rule_index rule peer)
              (1001 + rule) expr (codes "allow") s))
          (create_peer_acls-Appended p side rule expr (suc peer) n))
    where
      allow_priority : (d : Side) → get_acl_priority d false rule ≡ 1001 + rule
      allow_priority ingress = refl
      allow_priority egress = refl

  create_rule_acls-Appended :
      (p : NetworkPolicy) (side : Side) (ips : List Text) (rule : ℕ) (rules : List Rule) (s : S)
      → Appended (rule_rows p side ips rule rules) s (create_rule_acls nb p side ips rule rules s)
  unfolding create_rule_acls rule_rows
  create_rule_acls-Appended p side ips rule [] s = nothing-Appended s
  create_rule_acls-Appended p side ips rule (r ∷ rules) s =
      follow-Appended (peer_rows p side rule (rule_match side ips r) 0 (get_peer_count r.peers))
        (rule_rows p side ips (suc rule) rules) s
        (create_peer_acls nb p side rule (rule_match side ips r) 0 (get_peer_count r.peers) s)
        (λ x. create_rule_acls nb p side ips (suc rule) rules)
        (create_peer_acls-Appended p side rule (rule_match side ips r) 0 (get_peer_count r.peers) s)
        (create_rule_acls-Appended p side ips (suc rule) rules)

  create_side_acls-Appended :
      (p : NetworkPolicy) (side : Side) (ips : List Text) (s : S)
      → Appended (side_rows p ips side) s (create_side_acls nb p side ips s)
  unfolding create_side_acls
  create_side_acls-Appended p side ips s =
      follow-Appended (deny_rows p side ips) (rule_rows p side ips 0 (rules_of side p)) s
        (create_policy_acl nb (deny_message side) p side (codes "default")
          (get_acl_priority side true 0) (build_default_deny_match ips side) (codes "drop") s)
        (λ x. create_rule_acls nb p side ips 0 (rules_of side p))
        (rw (deny_priority side) (
          create_policy_acl-Appended (deny_message side) p side (codes "default") 1000
            (build_default_deny_match ips side) (codes "drop") s))
        (create_rule_acls-Appended p side ips 0 (rules_of side p))
    where
      deny_priority : (d : Side) → get_acl_priority d true 0 ≡ 1000
      deny_priority ingress = refl
      deny_priority egress = refl

  create_type_acls-Appended :
      (p : NetworkPolicy) (ips : List Text) (side : Option Side) (s : S)
      → Appended (type_rows p ips side) s (create_type_acls nb p ips side s)
  create_type_acls-Appended p ips none s = nothing-Appended s
  create_type_acls-Appended p ips (some ingress) s =
      wrap-Appended _ _ s (create_side_acls nb p ingress ips s)
        (create_side_acls-Appended p ingress ips s)
  create_type_acls-Appended p ips (some egress) s =
      wrap-Appended _ _ s (create_side_acls nb p egress ips s)
        (create_side_acls-Appended p egress ips s)

  pub create_all_acls-Appended :
      (p : NetworkPolicy) (ips types : List Text) (s : S)
      → Appended (desired_rows p ips types) s (create_all_acls nb p ips types s)
  unfolding create_all_acls desired_rows
  create_all_acls-Appended p ips [] s = nothing-Appended s
  create_all_acls-Appended p ips (t ∷ types) s =
      follow-Appended (type_rows p ips (side_of t)) (desired_rows p ips types) s
        (create_type_acls nb p ips (side_of t) s) (λ x. create_all_acls nb p ips types)
        (create_type_acls-Appended p ips (side_of t) s) (create_all_acls-Appended p ips types)
