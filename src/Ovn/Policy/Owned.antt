-- ===== src/Ovn/Policy/Owned.antt =====
-- pkg/ovn/policy_controller.go: after a successful Reconcile the rows of a policy are exactly those it
-- asks for, and the rows of others are untouched.
use zstack_ovn_kubernetes.Base.{
  ℕ, suc, ◌+◌, ◌≡◌, refl, ap, Bool, true, List, [], ◌∷◌, ◌++◌, map, Text, codes, Option, none, some,
  is_empty, Bool-cases, inl, inr, All, All-append, text_eq, text_eq_refl, append-nil,
}
use zstack_ovn_kubernetes.Base.Dict.{lookup}
use zstack_ovn_kubernetes.Ovndb.Acl.{Acl, of_policy, policy_ref}
use zstack_ovn_kubernetes.Ovndb.Acl.Rows.{select_rows, others}
use zstack_ovn_kubernetes.Ovn.Policy.{NetworkPolicy, side_of, rules_of, rule_match, rule_index}
use zstack_ovn_kubernetes.Ovn.Policy.Match.{Rule, Side, get_peer_count, build_default_deny_match}
use zstack_ovn_kubernetes.Ovn.Policy.Desired.{
  policy_row, unless_empty, peer_rows, numbers, allow_row, rule_rows, deny_rows, type_rows,
  desired_rows,
}

abbrev pub Owned : NetworkPolicy → List Acl → Type 0
Owned p rows = All (λ a. of_policy p.namespace p.name a ≡ true) rows

policy_row-Owned :
    (p : NetworkPolicy) (side : Side) (index : Text) (priority : ℕ) (expr action : Text)
    → of_policy p.namespace p.name (policy_row p side index priority expr action) ≡ true
unfolding lookup text_eq
policy_row-Owned p side index priority expr action = text_eq_refl (policy_ref p.namespace p.name)

allow_rows-Owned :
    (p : NetworkPolicy) (side : Side) (rule : ℕ) (expr : Text) (ns : List ℕ)
    → Owned p (map (allow_row p side rule expr) ns)
allow_rows-Owned p side rule expr [] = tt
allow_rows-Owned p side rule expr (n ∷ ns) = (
  policy_row-Owned p side (rule_index rule n) (1001 + rule) expr (codes "allow"),
  allow_rows-Owned p side rule expr ns,
)

unless_empty-Owned :
    (p : NetworkPolicy) (expr : Text) (rows : List Acl)
    → Owned p rows
    → Owned p (unless_empty expr rows)
unless_empty-Owned p expr rows h = elim (Bool-cases (is_empty expr)) [
  | inl e ↦ rw e tt
  | inr e ↦ rw e h
]

rule_rows-Owned :
    (p : NetworkPolicy) (side : Side) (ips : List Text) (rule : ℕ) (rules : List Rule)
    → Owned p (rule_rows p side ips rule rules)
unfolding rule_rows
rule_rows-Owned p side ips rule [] = tt
rule_rows-Owned p side ips rule (r ∷ rules) =
    All-append _ (peer_rows p side rule (rule_match side ips r) 0 (get_peer_count r.peers)) _
      (unless_empty-Owned p (rule_match side ips r) _
        (allow_rows-Owned p side rule (rule_match side ips r) (numbers 0 (get_peer_count r.peers))))
      (rule_rows-Owned p side ips (suc rule) rules)

type_rows-Owned :
    (p : NetworkPolicy) (ips : List Text) (side : Option Side) → Owned p (type_rows p ips side)
type_rows-Owned p ips none = tt
type_rows-Owned p ips (some side) =
    All-append _ (deny_rows p side ips) _
      (unless_empty-Owned p (build_default_deny_match ips side) _ (
        policy_row-Owned p side (codes "default") 1000 (build_default_deny_match ips side)
            (codes "drop"),
        tt,
      ))
      (rule_rows-Owned p side ips 0 (rules_of side p))

pub desired_rows-Owned :
    (p : NetworkPolicy) (ips types : List Text) → Owned p (desired_rows p ips types)
unfolding desired_rows
desired_rows-Owned p ips [] = tt
desired_rows-Owned p ips (t ∷ types) =
    All-append _ (type_rows p ips (side_of t)) _ (type_rows-Owned p ips (side_of t))
      (desired_rows-Owned p ips types)

-- Selecting the policy's rows, and the others, from a list of others followed by rows of the policy.
select_rows-append :
    (q : Acl → Bool) (a b : List Acl) → select_rows q (a ++ b) ≡ select_rows q a ++ select_rows q b
unfolding select_rows
select_rows-append q [] b = refl
select_rows-append q (x ∷ a) b = elim (Bool-cases (q x)) [
  | inl e ↦ rw (e, select_rows-append q a b) refl
  | inr e ↦ rw (e, select_rows-append q a b) refl
]

none_of_others : (q : Acl → Bool) (a : List Acl) → select_rows q (select_rows (others q) a) ≡ []
unfolding select_rows
none_of_others q [] = refl
none_of_others q (x ∷ a) = elim (Bool-cases (q x)) [
  | inl e ↦ rw e (none_of_others q a)
  | inr e ↦ rw (e, e) (none_of_others q a)
]

others_again :
    (q : Acl → Bool) (a : List Acl)
    → select_rows (others q) (select_rows (others q) a) ≡ select_rows (others q) a
unfolding select_rows
others_again q [] = refl
others_again q (x ∷ a) = elim (Bool-cases (q x)) [
  | inl e ↦ rw e (others_again q a)
  | inr e ↦ rw (e, e) (ap (λ v. x ∷ v) (others_again q a))
]

owned_rows_stay :
    (q : Acl → Bool) (a : List Acl)
    → All (λ x. q x ≡ true) a
    → (select_rows q a ≡ a) × (select_rows (others q) a ≡ [])
unfolding select_rows
owned_rows_stay q [] h = (refl, refl)
owned_rows_stay q (x ∷ a) h =
    let (mine, rest) = owned_rows_stay q a h.1 in rw h.0 (ap (λ v. x ∷ v) mine, rest)

pub replaced_rows :
    (p : NetworkPolicy) (old new desired : List Acl)
    → Owned p desired
    → new ≡ select_rows (others (of_policy p.namespace p.name)) old ++ desired
    → (select_rows (of_policy p.namespace p.name) new ≡ desired)
      × (select_rows (others (of_policy p.namespace p.name)) new
          ≡ select_rows (others (of_policy p.namespace p.name)) old)
replaced_rows p old new desired owned e =
    let q = of_policy p.namespace p.name in
    let (mine, rest) = owned_rows_stay q desired owned in
    rw e (
      rw (select_rows-append q (select_rows (others q) old) desired, none_of_others q old, mine)
          refl,
      rw
          (
            select_rows-append (others q) (select_rows (others q) old) desired,
            others_again q old,
            rest,
          )
          (append-nil (select_rows (others q) old)),
    )
