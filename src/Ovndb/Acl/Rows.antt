-- ===== src/Ovndb/Acl/Rows.antt =====
-- pkg/ovndb/acl.go on the rows of the ACL table: what CreateACL and DeleteACLsByPolicy do to them, with
-- the documented behaviour of libovsdb as laws.
use zstack_ovn_kubernetes.Base.{
  ◌≡◌, refl, sym, All, ap, ◌∙◌, Bool, true, false, not, ◌||◌, ◌&&◌, List, [], ◌∷◌, ◌++◌, map, Text,
  Option, none, some, ℤ, text_eq, text_eq_refl, text_eq_iff, is_empty, if◌then◌else◌, Bool-cases,
  inl, inr, arith,
}
use zstack_ovn_kubernetes.Base.Dict.{Dict}
use zstack_ovn_kubernetes.Ovndb.Errors.{Result, ok, err, follow, done}
use zstack_ovn_kubernetes.Ovndb.Transact.{
  Commits, Atomic, transact_and_check, transact_and_check-Atomic,
}
use zstack_ovn_kubernetes.Ovndb.Acl.{
  Acl, NbClient, create_acl, created_acl, first_uuid, of_policy, delete_acls_by_policy, delete_ops,
  list_acls_by_policy, list_acls_with_predicate, joined_ops, nothing_to_do, commit_deletes,
  insert_ops, direction_valid, priority_valid, action_valid, policy_ref,
}

-- A row without its UUID, which the database chooses.
abbrev pub content : Acl → Acl
content a = record a { uuid = [] }

unfoldable pub select_rows : (Acl → Bool) → List Acl → List Acl
select_rows p [] = []
select_rows p (a ∷ rows) = let rest = select_rows p rows in if p a then a ∷ rest else rest

abbrev pub others : (Acl → Bool) → Acl → Bool
others p a = not (p a)

abbrev pub same_row : Text → Acl → Bool
same_row u a = text_eq u a.uuid

unfoldable pub one_of : List Acl → Acl → Bool
one_of [] r = false
one_of (a ∷ found) r = same_row a.uuid r || one_of found r

-- No two rows have one UUID.
abbrev pub Distinct : List Acl → Type 0
Distinct [] = Unit
Distinct (a ∷ rows) = (one_of rows a ≡ false) × Distinct rows

-- The documented behaviour of libovsdb: transactions commit as a whole, an insert appends its row, a
-- delete by UUID takes that row out, and the cache shows the rows.
pub record Table {S Op : Type 0} (nb : NbClient S Op) (rows : S → List Acl)
    (effects : List Op → List Acl → List Acl) : Type 0 where
  pub commits : Commits nb.client rows effects
  pub created :
      (a : Acl) (ops : List Op) (r : List Acl)
      → nb.create a ≡ some ops
      → map content (effects ops r) ≡ map content r ++ content a ∷ []
  pub deleted :
      (a : Acl) (ops : List Op) (r : List Acl)
      → nb.delete a ≡ some ops
      → effects ops r ≡ select_rows (others (same_row a.uuid)) r
  pub joined : (p q : List Op) (r : List Acl) → effects (p ++ q) r ≡ effects q (effects p r)
  pub cached :
      (p : Acl → Bool) (s : S) (found : List Acl)
      → nb.select p s ≡ some found
      → found ≡ select_rows p (rows s)
  pub distinct : (s : S) → Distinct (rows s)

pub select_rows_same :
    (p q : Acl → Bool) (rows : List Acl)
    → All (λ a. p a ≡ q a) rows
    → select_rows p rows ≡ select_rows q rows
unfolding select_rows
select_rows_same p q [] h = refl
select_rows_same p q (a ∷ rows) h = rw (h.0, select_rows_same p q rows h.1) refl

every_row : (P : Acl → Type 0) (rows : List Acl) → ((a : Acl) → P a) → All P rows
every_row P [] h = tt
every_row P (a ∷ rows) h = (h a, every_row P rows h)

select_rows_twice :
    (p q : Acl → Bool) (rows : List Acl)
    → select_rows q (select_rows p rows) ≡ select_rows (λ a. if p a then q a else false) rows
unfolding select_rows
select_rows_twice p q [] = refl
select_rows_twice p q (a ∷ rows) = elim (Bool-cases (p a)) [
  | inl e ↦ rw (e, select_rows_twice p q rows) refl
  | inr e ↦ rw (e, select_rows_twice p q rows) refl
]

all_stay : (rows : List Acl) → rows ≡ select_rows (λ a. true) rows
unfolding select_rows
all_stay [] = refl
all_stay (a ∷ rows) = ap (λ r. a ∷ r) (all_stay rows)

-- In rows with distinct UUIDs, a row has the UUID of a selected one exactly when it is selected.
one_of_none :
    (p : Acl → Bool) (rows : List Acl) (a : Acl)
    → one_of rows a ≡ false
    → one_of (select_rows p rows) a ≡ false
unfolding one_of select_rows
one_of_none p [] a h = refl
one_of_none p (b ∷ rows) a h = ground (arith, one_of_none p rows a)

apart_rows :
    (a : Acl) (rows : List Acl) → one_of rows a ≡ false → All (λ r. same_row a.uuid r ≡ false) rows
unfolding one_of
apart_rows a [] h = tt
apart_rows a (r ∷ rows) h = (
  ground (arith, text_eq_iff a.uuid r.uuid, text_eq_iff r.uuid a.uuid),
  apart_rows a rows (ground arith),
)

one_more :
    (p : Acl → Bool) (a : Acl) (found rows : List Acl)
    → All (λ r. same_row a.uuid r ≡ false) rows
    → All (λ r. one_of found r ≡ p r) rows
    → All (λ r. one_of (if p a then a ∷ found else found) r ≡ p r) rows
unfolding one_of
one_more p a found [] apart h = tt
one_more p a found (r ∷ rows) apart h =
    (ground (arith, apart.0, h.0), one_more p a found rows apart.1 h.1)

one_of_selected :
    (p : Acl → Bool) (rows : List Acl)
    → Distinct rows
    → All (λ r. one_of (select_rows p rows) r ≡ p r) rows
unfolding one_of select_rows
one_of_selected p [] d = tt
one_of_selected p (a ∷ rows) d = (
  ground (arith, text_eq_refl a.uuid, one_of_none p rows a d.0),
  one_more p a (select_rows p rows) rows (apart_rows a rows d.0) (one_of_selected p rows d.1),
)

not_rows :
    (p q : Acl → Bool) (rows : List Acl)
    → All (λ r. q r ≡ p r) rows
    → All (λ r. others q r ≡ others p r) rows
not_rows p q [] h = tt
not_rows p q (r ∷ rows) h = (ap not h.0, not_rows p q rows h.1)

-- Deleting found rows one after the other leaves the rows with other UUIDs.
module _ {S Op : Type 0} (nb : NbClient S Op) (rows : S → List Acl)
    (effects : List Op → List Acl → List Acl) (table : Table nb rows effects) where
  delete_ops-effects :
      (found : List Acl) (ops : List Op) (r : List Acl)
      → delete_ops nb found ≡ some ops
      → effects ops r ≡ select_rows (others (one_of found)) r
  unfolding delete_ops one_of
  delete_ops-effects [] ops r e =
      let none_left : ops ≡ [] = cc in rw none_left (table.commits.no_effect r ∙ all_stay r)
  delete_ops-effects (a ∷ found) ops r e =
      by_parts (delete_ops-effects found) (nb.delete a) (delete_ops nb found) refl refl e
    where
      by_parts :
          ((qs : List Op) (rs : List Acl)
            → delete_ops nb found ≡ some qs
            → effects qs rs ≡ select_rows (others (one_of found)) rs)
          → (x y : Option (List Op)) → nb.delete a ≡ x
          → delete_ops nb found ≡ y
          → joined_ops nb x y ≡ some ops
          → effects ops r ≡ select_rows (others (λ b. same_row a.uuid b || one_of found b)) r
      by_parts later none y ex ey h = absurd cc
      by_parts later (some ps) none ex ey h = absurd cc
      by_parts later (some ps) (some qs) ex ey h =
          let both : ops ≡ ps ++ qs = cc in
          rw
            (
              both,
              table.joined ps qs r,
              later qs (effects ps r) ey,
              table.deleted a ps r ex,
              select_rows_twice (others (same_row a.uuid)) (others (one_of found)) r,
            )
            (select_rows_same _ _ r (every_row _ r (λ b. ground arith)))

  -- What a write to the table promises: its effect on success, and the old rows on every error.
  abbrev pub DeletedOutcome : (Acl → Bool) → S → S × Result Unit → Type 0
  DeletedOutcome p s (t, ok x) = rows t ≡ select_rows (others p) (rows s)
  DeletedOutcome p s (t, err e) = rows t ≡ rows s

  deletes-DeletedOutcome :
      (p : Acl → Bool) (ref : Text) (s : S) (found : List Acl)
      → found ≡ select_rows p (rows s)
      → DeletedOutcome p s (commit_deletes nb ref (delete_ops nb found) s)
  deletes-DeletedOutcome p ref s found e = by_ops (delete_ops nb found) refl
    where
      kept :
          (ops : List Op)
          → delete_ops nb found ≡ some ops
          → effects ops (rows s) ≡ select_rows (others p) (rows s)
      kept ops h =
          delete_ops-effects found ops (rows s) h
          ∙ select_rows_same (others (one_of found)) (others p) (rows s) (
              not_rows p (one_of found) (rows s)
                (rw e (one_of_selected p (rows s) (table.distinct s))))

      by_atomic :
          (op : Op) (ops : List Op) (r : S × Result (List Text))
          → effects (op ∷ ops) (rows s) ≡ select_rows (others p) (rows s)
          → Atomic nb.client rows effects (op ∷ ops) s r
          → DeletedOutcome p s (nothing_to_do nb r)
      by_atomic op ops (t, ok us) k a = a ∙ k
      by_atomic op ops (t, err x) k a = a

      by_ops :
          (x : Option (List Op))
          → delete_ops nb found ≡ x
          → DeletedOutcome p s (commit_deletes nb ref x s)
      by_ops none h = refl
      by_ops (some []) h = sym (table.commits.no_effect (rows s)) ∙ kept [] h
      by_ops (some (op ∷ ops)) h =
          by_atomic op ops (transact_and_check nb.client nb.polls (op ∷ ops) s) (kept (op ∷ ops) h)
            (transact_and_check-Atomic nb.client rows effects table.commits nb.polls (op ∷ ops) s)

  -- DeleteACLsByPolicy, with the table's laws: on success exactly the rows of the policy are gone, and
  -- the others are as they were; on every error all rows are as they were.
  pub delete_acls_by_policy-DeletedOutcome :
      (namespace name : Text) (s : S)
      → DeletedOutcome (of_policy namespace name) s (delete_acls_by_policy nb namespace name s)
  unfolding delete_acls_by_policy list_acls_by_policy list_acls_with_predicate
  delete_acls_by_policy-DeletedOutcome namespace name s = elim (Bool-cases (nb.connected s)) [
    | inl up ↦ by_cache up (nb.select (of_policy namespace name) s) refl
    | inr down ↦ rw (down, delete_acls_by_policy, list_acls_by_policy) refl
  ]
    where
      by_cache :
          nb.connected s ≡ true
          → (x : Option (List Acl)) → nb.select (of_policy namespace name) s ≡ x
          → DeletedOutcome (of_policy namespace name) s (delete_acls_by_policy nb namespace name s)
      by_cache up none e = rw (up, e, delete_acls_by_policy, list_acls_by_policy) refl
      by_cache up (some found) e =
          rw (up, e, delete_acls_by_policy, list_acls_by_policy)
            (rw up (
              deletes-DeletedOutcome (of_policy namespace name) (policy_ref namespace name) s found
                (table.cached (of_policy namespace name) s found e)))

  -- The arguments that CreateACL accepts.
  abbrev pub accepts : Acl → Bool
  accepts a =
      direction_valid a.direction
      && priority_valid a.priority
      && action_valid a.action
      && not (is_empty a.match_expr)

  abbrev pub CreatedOutcome : Acl → S → S × Result Acl → Type 0
  CreatedOutcome a s (t, ok b) =
      (accepts a ≡ true)
      × (content b ≡ content a)
      × (map content (rows t) ≡ map content (rows s) ++ content a ∷ [])
  CreatedOutcome a s (t, err e) = rows t ≡ rows s

  insert-CreatedOutcome :
      (a : Acl) (s : S) → accepts a ≡ true → CreatedOutcome a s (insert_ops nb a (nb.create a) s)
  insert-CreatedOutcome a s good = by_ops (nb.create a) refl
    where
      same_content : (us : List Text) → content (first_uuid a us) ≡ content a
      same_content [] = refl
      same_content (u ∷ us) = refl

      by_atomic :
          (ops : List Op) (r : S × Result (List Text))
          → nb.create a ≡ some ops
          → Atomic nb.client rows effects ops s r
          → CreatedOutcome a s (follow (λ us. done (first_uuid a us)) r)
      by_atomic ops (t, ok us) e h =
          (good, same_content us, ap (map content) h ∙ table.created a ops (rows s) e)
      by_atomic ops (t, err x) e h = h

      by_ops : (x : Option (List Op)) → nb.create a ≡ x → CreatedOutcome a s (insert_ops nb a x s)
      by_ops none e = refl
      by_ops (some ops) e =
          by_atomic ops (transact_and_check nb.client nb.polls ops s) e
            (transact_and_check-Atomic nb.client rows effects table.commits nb.polls ops s)

  pub create_acl-CreatedOutcome :
      (name : Option Text) (direction : Text) (priority : ℤ) (expr action : Text) (ids : Dict Text)
      (s : S)
      → CreatedOutcome
          (created_acl name direction priority expr action ids)
          s
          (create_acl nb name direction priority expr action ids s)
  unfolding create_acl
  create_acl-CreatedOutcome name direction priority expr action ids s =
      let row = created_acl name direction priority expr action ids in
      elim (Bool-cases (direction_valid direction)) [
        | inr bad ↦ rw (bad, create_acl) refl
        | inl d ↦ elim (Bool-cases (priority_valid priority)) [
          | inr bad ↦ rw (d, bad, create_acl) refl
          | inl p ↦ elim (Bool-cases (action_valid action)) [
            | inr bad ↦ rw (d, p, bad, create_acl) refl
            | inl x ↦ elim (Bool-cases (is_empty expr)) [
              | inl bad ↦ rw (d, p, x, bad, create_acl) refl
              | inr m ↦ elim (Bool-cases (nb.connected s)) [
                | inr down ↦ rw (d, p, x, m, down, create_acl) refl
                | inl up ↦
                    rw (d, p, x, m, up, create_acl)
                      (insert-CreatedOutcome row s (rw (d, p, x, m) refl))
              ]
            ]
          ]
        ]
      ]
