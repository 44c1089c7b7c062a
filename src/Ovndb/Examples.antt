-- ===== src/Ovndb/Examples.antt =====
-- A database client in memory, which satisfies the laws of the ACL table, and concrete instances for
-- pkg/ovndb.
use zstack_ovn_kubernetes.Base.{
  ℕ, ◌+◌, ◌≡◌, refl, sym, ap, Bool, true, false, not, ◌&&◌, List, [], ◌∷◌, ◌++◌, map, Text, codes,
  none, some, pos, if◌then◌else◌, length, replicate, ltb, arith, text_eq,
}
use zstack_ovn_kubernetes.Base.Dict.{lookup}
use zstack_ovn_kubernetes.Ovndb.Transact.{
  Client, Reply, replies, disconnected, refused, Commits, Atomic, transact_and_check,
  transact_and_check-Atomic, transact_with_retry,
}
use zstack_ovn_kubernetes.Ovndb.Acl.{
  Acl, NbClient, of_policy, delete_acls_by_policy, build_acl, delete_ops, list_acls_by_policy,
  list_acls_with_predicate,
}
use zstack_ovn_kubernetes.Ovndb.Acl.Rows.{
  Table, content, select_rows, others, same_row, one_of, Distinct, DeletedOutcome,
  delete_acls_by_policy-DeletedOutcome,
}

pub data Op : Type 0 where
  insert_row : Acl → Op
  delete_row : Text → Op

unfoldable pub distinct_rows : List Acl → Bool
distinct_rows [] = true
distinct_rows (a ∷ rows) = not (one_of rows a) && distinct_rows rows

distinct_rows_sound : (rows : List Acl) → distinct_rows rows ≡ true → Distinct rows
unfolding distinct_rows
distinct_rows_sound [] h = tt
distinct_rows_sound (a ∷ rows) h = (ground arith, distinct_rows_sound rows (ground arith))

-- Longer than every UUID in use.
unfoldable pub longest : List Acl → ℕ
longest [] = 1
longest (a ∷ rows) =
    let rest = longest rows in if ltb rest (length a.uuid + 1) then length a.uuid + 1 else rest

abbrev pub fresh : List Acl → Text
fresh rows = replicate (longest rows) b'u'

abbrev pub effect : Op → List Acl → List Acl
effect (insert_row a) rows = rows ++ record a { uuid = fresh rows } ∷ []
effect (delete_row u) rows = select_rows (others (same_row u)) rows

unfoldable pub effects : List Op → List Acl → List Acl
effects [] rows = rows
effects (op ∷ ops) rows = effects ops (effect op rows)

-- The rows, and that their UUIDs differ; a transaction that would break this is refused.
abbrev pub Memory : Type 0
Memory = (rows : List Acl) × (distinct_rows rows ≡ true)

abbrev pub memory_rows : Memory → List Acl
memory_rows (rows, h) = rows

abbrev uuids : List Op → List Text
uuids [] = []
uuids (op ∷ ops) = [] ∷ uuids ops

commit_if :
    Memory → List Text → (rows : List Acl) (b : Bool) → distinct_rows rows ≡ b → Memory × Reply
commit_if s us rows true h = ((rows, h), replies us)
commit_if s us rows false h = (s, refused)

unfoldable pub memory_transact : List Op → Memory → Memory × Reply
unfolding commit_if
memory_transact ops (rows, h) =
    commit_if (rows, h) (uuids ops) (effects ops rows) (distinct_rows (effects ops rows)) refl

abbrev pub memory_client : Client Memory Op
memory_client = record { transact = memory_transact; check_results = λ us ops. true }

abbrev pub memory : NbClient Memory Op
memory = record {
  client = memory_client;
  polls = 3;
  connected = λ s. true;
  create = λ a. some (insert_row a ∷ []);
  delete = λ a. some (delete_row a.uuid ∷ []);
  select = λ p s. some (select_rows p (memory_rows s));
}

commit_if-rows :
    (s : Memory) (us : List Text) (rows : List Acl) (b : Bool) (h : distinct_rows rows ≡ b)
    (t : Memory) (vs : List Text)
    → commit_if s us rows b h ≡ (t, replies vs)
    → memory_rows t ≡ rows
unfolding commit_if
commit_if-rows s us rows true h t vs e = ap memory_rows (sym (ap (λ r. r.0) e))
commit_if-rows s us rows false h t vs e = absurd cc

commit_if-online :
    (s : Memory) (us : List Text) (rows : List Acl) (b : Bool) (h : distinct_rows rows ≡ b)
    (t : Memory)
    → commit_if s us rows b h ≡ (t, disconnected)
    → memory_rows t ≡ memory_rows s
unfolding commit_if
commit_if-online s us rows true h t e = absurd cc
commit_if-online s us rows false h t e = absurd cc

commit_if-refused :
    (s : Memory) (us : List Text) (rows : List Acl) (b : Bool) (h : distinct_rows rows ≡ b)
    (t : Memory)
    → commit_if s us rows b h ≡ (t, refused)
    → memory_rows t ≡ memory_rows s
unfolding commit_if
commit_if-refused s us rows true h t e = absurd cc
commit_if-refused s us rows false h t e = ap memory_rows (sym (ap (λ r. r.0) e))

pub memory-Commits : Commits memory_client memory_rows effects
unfolding memory_transact effects
memory-Commits = record {
  applied = λ ops s t us e c. commit_if-rows s (uuids ops) _ _ refl t us e;
  aborted = λ ops s t us e c. absurd cc;
  offline = λ ops s t e. commit_if-online s (uuids ops) _ _ refl t e;
  rejected = λ ops s t e. commit_if-refused s (uuids ops) _ _ refl t e;
  no_effect = λ r. refl;
}

effects_joined : (p q : List Op) (r : List Acl) → effects (p ++ q) r ≡ effects q (effects p r)
unfolding effects
effects_joined [] q r = refl
effects_joined (op ∷ p) q r = effects_joined p q (effect op r)

content_append :
    (r : List Acl) (a : Acl) → map content (r ++ a ∷ []) ≡ map content r ++ content a ∷ []
content_append [] a = refl
content_append (b ∷ r) a = ap (λ v. content b ∷ v) (content_append r a)

created_one :
    (a : Acl) (ops : List Op) (r : List Acl)
    → some (insert_row a ∷ []) ≡ some ops
    → map content (effects ops r) ≡ map content r ++ content a ∷ []
unfolding effects
created_one a ops r e =
    let one : ops ≡ insert_row a ∷ [] = cc in
    rw one (content_append r (record a { uuid = fresh r }))

deleted_one :
    (a : Acl) (ops : List Op) (r : List Acl)
    → some (delete_row a.uuid ∷ []) ≡ some ops
    → effects ops r ≡ select_rows (others (same_row a.uuid)) r
unfolding effects
deleted_one a ops r e = let one : ops ≡ delete_row a.uuid ∷ [] = cc in rw one refl

pub memory-Table : Table memory memory_rows effects
memory-Table = record {
  commits = memory-Commits;
  created = created_one;
  deleted = deleted_one;
  joined = effects_joined;
  cached = λ p s found e. cc;
  distinct = λ s. distinct_rows_sound s.0 s.1;
}

-- One row of the policy default/web and one of default/db.
abbrev pub web_ids : List (Text × Text)
web_ids = (codes "k8s.ovn.org/policy", codes "default/web") ∷ []

abbrev pub web_row : Acl
web_row =
    build_acl none (codes "to-lport") (pos 1000) (codes "ip4.dst == 10.244.1.5") (codes "drop")
      web_ids

abbrev pub db_row : Acl
db_row = record web_row {
  uuid = codes "b";
  external_ids = (codes "k8s.ovn.org/policy", codes "default/db") ∷ [];
}

pub two_distinct : distinct_rows (record web_row { uuid = codes "a" } ∷ db_row ∷ []) ≡ true
unfolding distinct_rows one_of text_eq
two_distinct = refl

abbrev pub two_rows : Memory
two_rows = (record web_row { uuid = codes "a" } ∷ db_row ∷ [], two_distinct)

transact_and_check-Atomic_example :
    Atomic memory_client memory_rows effects
      (delete_row (codes "a") ∷ [])
      two_rows
      (transact_and_check memory_client 3 (delete_row (codes "a") ∷ []) two_rows)
transact_and_check-Atomic_example =
    transact_and_check-Atomic memory_client memory_rows effects memory-Commits 3
      (delete_row (codes "a") ∷ []) two_rows

delete_acls_by_policy-DeletedOutcome_example :
    DeletedOutcome memory memory_rows effects memory-Table
      (of_policy (codes "default") (codes "web"))
      two_rows
      (delete_acls_by_policy memory (codes "default") (codes "web") two_rows)
delete_acls_by_policy-DeletedOutcome_example =
    delete_acls_by_policy-DeletedOutcome memory memory_rows effects memory-Table (codes "default")
      (codes "web") two_rows

web_deleted :
    memory_rows (delete_acls_by_policy memory (codes "default") (codes "web") two_rows).0
    ≡ db_row ∷ []
unfolding delete_acls_by_policy list_acls_by_policy list_acls_with_predicate delete_ops
    transact_and_check transact_with_retry memory_transact effects distinct_rows select_rows one_of
    lookup text_eq
web_deleted = refl
