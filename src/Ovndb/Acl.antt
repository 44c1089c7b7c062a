-- ===== src/Ovndb/Acl.antt =====
-- pkg/ovndb/acl.go: ACLOps. The client of libovsdb is a parameter: the operations that insert or delete
-- a row, the rows of the cache that pass a test, and the transactions of Transact.
pub mod Rows
pub mod Update
use zstack_ovn_kubernetes.Base.{
  ℕ, ◌+◌, ◌≡◌, refl, Bool, true, false, not, ◌&&◌, ◌||◌, List, [], ◌∷◌, ◌++◌, Text, codes, Option,
  none, some, text_eq, if◌then◌else◌, ltb, length, take, ℤ, decimal_int, is_empty, pos, negsuc,
}
use zstack_ovn_kubernetes.Base.Dict.{Dict, lookup}
use zstack_ovn_kubernetes.Ovndb.Errors.{
  Result, ok, err, Step, done, fail, ◌>>=◌, Error, validation_error, transaction_error,
  not_connected, object_not_found,
}
use zstack_ovn_kubernetes.Ovndb.Transact.{Client, transact_and_check, build_named_uuid}

-- The columns that the program reads and writes.
pub record Acl : Type 0 where
  pub uuid : Text
  pub name : Option Text
  pub direction : Text
  pub priority : ℤ
  pub match_expr : Text
  pub action : Text
  pub log : Bool
  pub severity : Option Text
  pub external_ids : Dict Text

pub record NbClient (S Op : Type 0) : Type 0 where
  pub client : Client S Op
  pub polls : ℕ
  pub connected : S → Bool
  pub create : Acl → Option (List Op)
  pub delete : Acl → Option (List Op)
  pub select : (Acl → Bool) → S → Option (List Acl)

abbrev pub direction_valid : Text → Bool
direction_valid d = text_eq d (codes "from-lport") || text_eq d (codes "to-lport")

abbrev pub priority_valid : ℤ → Bool
priority_valid (pos p) = not (ltb 32767 p)
priority_valid (negsuc p) = false

abbrev pub action_valid : Text → Bool
action_valid a =
    text_eq a (codes "allow")
    || text_eq a (codes "allow-related")
    || text_eq a (codes "drop")
    || text_eq a (codes "reject")
    || text_eq a (codes "pass")

-- A name is cut at OVN's limit of 63 characters; an empty one counts as none.
abbrev pub truncated_name : Option Text → Option Text
truncated_name none = none
truncated_name (some n) =
    if is_empty n then none else if ltb 63 (length n) then some (take 63 n) else some n

abbrev pub acl_id : Text → ℤ → Text → Text
acl_id direction priority expr =
    build_named_uuid
      (codes "acl-" ++ (direction ++ (b'-' ∷ (decimal_int priority ++ (b'-' ∷ take 20 expr)))))

-- BuildACL.
abbrev pub build_acl : Option Text → Text → ℤ → Text → Text → Dict Text → Acl
build_acl name direction priority expr action ids = record {
  uuid = [];
  name = truncated_name name;
  direction = direction;
  priority = priority;
  match_expr = expr;
  action = action;
  log = false;
  severity = none;
  external_ids = ids;
}

-- The row that CreateACL inserts: BuildACL's, with a named UUID.
abbrev pub created_acl : Option Text → Text → ℤ → Text → Text → Dict Text → Acl
created_acl name direction priority expr action ids =
    record (build_acl name direction priority expr action ids) {
      uuid = acl_id direction priority expr;
    }

abbrev pub first_uuid : Acl → List Text → Acl
first_uuid a [] = a
first_uuid a (u ∷ us) = record a { uuid = u }

-- strings.Join over "namespace/name".
abbrev pub policy_ref : Text → Text → Text
policy_ref namespace name = namespace ++ (b'/' ∷ name)

-- acl.ExternalIDs[key] == value: a missing key reads as the empty text.
abbrev pub text_or_empty : Option Text → Text
text_or_empty none = []
text_or_empty (some t) = t

abbrev pub has_id : Text → Text → Acl → Bool
has_id key value a = text_eq (text_or_empty (lookup key a.external_ids)) value

abbrev pub of_policy : Text → Text → Acl → Bool
of_policy namespace name = has_id (codes "k8s.ovn.org/policy") (policy_ref namespace name)

module _ {S Op : Type 0} (nb : NbClient S Op) where
  abbrev nb_client : {A : Type 0} → Step S A → Step S A
  nb_client m s = if nb.connected s then m s else (s, err not_connected)

  -- The details of the error print a pointer, and are left out.
  abbrev insert_ops : Acl → Option (List Op) → Step S Acl
  insert_ops a none = fail (transaction_error (codes "CreateACL") [])
  insert_ops a (some ops) =
      transact_and_check nb.client nb.polls ops >>= λ us. done (first_uuid a us)

  unfoldable pub create_acl : Option Text → Text → ℤ → Text → Text → Dict Text → Step S Acl
  unfolding transact_and_check
  create_acl name direction priority expr action ids =
      let row = created_acl name direction priority expr action ids in
      if not (direction_valid direction)
      then fail (validation_error (codes "direction"))
      else if not (priority_valid priority)
      then fail (validation_error (codes "priority"))
      else if not (action_valid action)
      then fail (validation_error (codes "action"))
      else if is_empty expr
      then fail (validation_error (codes "match"))
      else nb_client (insert_ops row (nb.create row))

  abbrev read_cache : Text → Option (List Acl) → Step S (List Acl)
  read_cache op none = fail (transaction_error op [])
  read_cache op (some found) = done found

  unfoldable pub list_acls_with_predicate : (Acl → Bool) → Step S (List Acl)
  list_acls_with_predicate p =
      nb_client (λ s. read_cache (codes "ListACLsWithPredicate") (nb.select p s) s)

  unfoldable pub list_acls_by_policy : Text → Text → Step S (List Acl)
  unfolding list_acls_with_predicate
  list_acls_by_policy namespace name = list_acls_with_predicate (of_policy namespace name)

  abbrev joined_ops : Option (List Op) → Option (List Op) → Option (List Op)
  joined_ops none rest = none
  joined_ops (some ops) none = none
  joined_ops (some ops) (some rest) = some (ops ++ rest)

  -- The loop of DeleteACLsByPolicy, which appends each row's operations and stops at the first error.
  unfoldable pub delete_ops : List Acl → Option (List Op)
  delete_ops [] = some []
  delete_ops (a ∷ found) = joined_ops (nb.delete a) (delete_ops found)

  abbrev pub nothing_to_do : S × Result (List Text) → S × Result Unit
  nothing_to_do (t, ok us) = (t, ok tt)
  nothing_to_do (t, err e) = (t, err e)

  abbrev pub commit_deletes : Text → Option (List Op) → Step S Unit
  commit_deletes ref none s = (s, err (transaction_error (codes "DeleteACLsByPolicy") ref))
  commit_deletes ref (some []) s = (s, ok tt)
  commit_deletes ref (some (op ∷ ops)) s =
      nothing_to_do (transact_and_check nb.client nb.polls (op ∷ ops) s)

  unfoldable pub delete_acls_by_policy : Text → Text → Step S Unit
  unfolding list_acls_by_policy delete_ops transact_and_check
  delete_acls_by_policy namespace name = list_acls_by_policy namespace name >>= λ found.
      nb_client (commit_deletes (policy_ref namespace name) (delete_ops found))

  abbrev run_deletes : Text → Option (List Op) → Step S Unit
  run_deletes uuid none s = (s, err (transaction_error (codes "DeleteACL") uuid))
  run_deletes uuid (some ops) s = nothing_to_do (transact_and_check nb.client nb.polls ops s)

  unfoldable pub delete_acl : Text → Step S Unit
  unfolding transact_and_check
  delete_acl uuid =
      if is_empty uuid
      then fail (validation_error (codes "uuid"))
      else nb_client (
          run_deletes uuid
            (nb.delete (record (build_acl none [] (pos 0) [] [] []) { uuid = uuid })))
