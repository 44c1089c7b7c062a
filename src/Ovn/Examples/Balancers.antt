-- ===== src/Ovn/Examples/Balancers.antt =====
-- A table of load balancers in memory, which satisfies the laws of pkg/ovndb's client.
use zstack_ovn_kubernetes.Base.{
  ◌≡◌, refl, sym, ap, ◌∙◌, Bool, true, false, List, [], ◌∷◌, Text, codes, Option, none, some,
  if◌then◌else◌, text_eq, text_eq_iff, Bool-cases, inl, inr,
}
use zstack_ovn_kubernetes.Base.Dict.{Dict, lookup, insert, delete, lookup-insert, lookup-delete}
use zstack_ovn_kubernetes.Ovndb.Transact.{Client, Reply, replies, Commits}
use zstack_ovn_kubernetes.Ovndb.Table.{Answer, row, absent, failed, entries}
use zstack_ovn_kubernetes.Ovndb.LoadBalancer.{LoadBalancer, LbField, LbClient, options_field}
use zstack_ovn_kubernetes.Ovndb.LoadBalancer.Rows.{vips_at, vips_of, LbTable}
use zstack_ovn_kubernetes.Ovndb.LogicalSwitch.{SwitchClient}
use zstack_ovn_kubernetes.Ovn.Service.Quiet.{ServiceTables}

abbrev pub Rows : Type 0
Rows = Dict LoadBalancer

pub data Op : Type 0 where
  put : LoadBalancer → Op
  put_options : LoadBalancer → Op
  drop_name : Text → Op
  switch_op : Op

abbrev pub with_options : LoadBalancer → Option LoadBalancer → Rows → Rows
with_options lb none d = d
with_options lb (some old) d = insert lb.name (record old { options = lb.options }) d

abbrev pub effect : Op → Rows → Rows
effect (put lb) d = insert lb.name lb d
effect (put_options lb) d = with_options lb (lookup lb.name d) d
effect (drop_name n) d = delete n d
effect switch_op d = d

abbrev pub effects : List Op → Rows → Rows
effects [] d = d
effects (op ∷ ops) d = effects ops (effect op d)

abbrev pub table_client : Client Rows Op
table_client = record {
  transact = λ ops d. (effects ops d, replies (codes "u1" ∷ []));
  check_results = λ us ops. true;
}

abbrev pub named : Text → LoadBalancer → Answer LoadBalancer
named n lb = if text_eq lb.name n then row lb else failed

abbrev pub answer : Text → Option LoadBalancer → Answer LoadBalancer
answer n none = absent
answer n (some lb) = named n lb

abbrev pub update_ops : LoadBalancer → List LbField → List Op
update_ops lb (options_field ∷ fields) = put_options lb ∷ []
update_ops lb fields = put lb ∷ []

abbrev pub balancers : LbClient Rows Op
balancers = record {
  client = table_client;
  polls = 3;
  connected = λ s. true;
  get = λ n s. answer n (lookup n s);
  get_uuid = λ u s. failed;
  list = λ s. none;
  select = λ p s. none;
  create = λ lb. some (put lb ∷ []);
  update = λ lb fields. some (update_ops lb fields);
  delete = λ n. some (drop_name n ∷ []);
  delete_row = λ lb. some (drop_name lb.name ∷ []);
  mutate = λ n c. none;
}

abbrev pub switches : SwitchClient Rows Op
switches = record {
  client = table_client;
  polls = 3;
  connected = λ s. true;
  get = λ n s. absent;
  get_uuid = λ u s. failed;
  list = λ s. some [];
  select = λ p s. some [];
  create = λ ls. some (switch_op ∷ []);
  update = λ ls fields. some (switch_op ∷ []);
  delete = λ n. some (switch_op ∷ []);
  delete_row = λ ls. some (switch_op ∷ []);
  mutate = λ n c. some (switch_op ∷ []);
}

abbrev pub whole : Rows → Rows
whole d = d

table_client-Commits : Commits table_client whole effects
table_client-Commits = record {
  applied = λ ops s t us e good. ap (λ (r : Rows × Reply). r.0) (sym e);
  aborted = λ ops s t us e bad. absurd cc;
  offline = λ ops s t e. absurd (cc (ap (λ (r : Rows × Reply). r.1) e));
  rejected = λ ops s t e. absurd (cc (ap (λ (r : Rows × Reply). r.1) e));
  no_effect = λ r. refl;
}

vips_at-insert :
    (n m : Text) (lb : LoadBalancer) (d : Rows)
    → vips_at m (insert n lb d) ≡ (if text_eq n m then some (entries lb.vips) else vips_at m d)
vips_at-insert n m lb d = ap vips_of (lookup-insert n m lb d) ∙ chosen (text_eq n m)
  where
    chosen :
        (b : Bool)
        → vips_of (if b then some lb else lookup m d)
          ≡ (if b then some (entries lb.vips) else vips_at m d)
    chosen true = refl
    chosen false = refl

vips_at-delete :
    (n m : Text) (d : Rows) → vips_at m (delete n d) ≡ (if text_eq n m then none else vips_at m d)
vips_at-delete n m d = ap vips_of (lookup-delete n m d) ∙ chosen (text_eq n m)
  where
    chosen :
        (b : Bool) → vips_of (if b then none else lookup m d) ≡ (if b then none else vips_at m d)
    chosen true = refl
    chosen false = refl

vips_at-options :
    (lb : LoadBalancer) (m : Text) (d : Rows) → vips_at m (effect (put_options lb) d) ≡ vips_at m d
vips_at-options lb m d = by_old (lookup lb.name d) refl
  where
    same :
        (old : LoadBalancer) (b : Bool)
        → text_eq lb.name m ≡ b
        → lookup lb.name d ≡ some old
        → (if b then some (entries old.vips) else vips_at m d) ≡ vips_at m d
    same old true e at =
        sym (ap vips_of (ap (λ (k : Text). lookup k d) (sym ((text_eq_iff lb.name m).0 e)) ∙ at))
    same old false e at = refl

    by_old :
        (o : Option LoadBalancer)
        → lookup lb.name d ≡ o
        → vips_at m (with_options lb o d) ≡ vips_at m d
    by_old none e = refl
    by_old (some old) e =
        vips_at-insert lb.name m (record old { options = lb.options }) d
        ∙ same old (text_eq lb.name m) refl e

got_lem :
    (n : Text) (o : Option LoadBalancer) (lb : LoadBalancer)
    → answer n o ≡ row lb
    → (o ≡ some lb) × (lb.name ≡ n)
got_lem n none lb e = absurd cc
got_lem n (some old) lb e = elim (Bool-cases (text_eq old.name n)) [
  | inl same ↦
      let eq : old ≡ lb = row_inj (rw same at e) in
      (ap some eq, ap (λ (r : LoadBalancer). r.name) (sym eq) ∙ (text_eq_iff old.name n).0 same)
  | inr other ↦ absurd (not_row (rw other at e))
]
  where
    row_inj : row old ≡ row lb → old ≡ lb
    row_inj h = cc

    not_row : failed ≡ row lb → ⊥
    not_row h = cc

missing_lem : (n : Text) (o : Option LoadBalancer) → answer n o ≡ absent → o ≡ none
missing_lem n none e = refl
missing_lem n (some lb) e = elim (Bool-cases (text_eq lb.name n)) [
  | inl same ↦ absurd (is_row (rw same at e))
  | inr other ↦ absurd (is_failed (rw other at e))
]
  where
    is_row : row lb ≡ absent → ⊥
    is_row h = cc

    is_failed : ◌≡◌ {A = Answer LoadBalancer} failed absent → ⊥
    is_failed h = cc

balancers-LbTable : LbTable balancers whole effects
balancers-LbTable = record {
  commits = table_client-Commits;
  got = λ n s lb e. got_lem n (lookup n s) lb e;
  missing = λ n s e. missing_lem n (lookup n s) e;
  created = λ lb ops d m e. sent (put lb) ops d m _ e (vips_at-insert lb.name m lb d);
  updated = λ lb old ops d m e at same. sent (put lb) ops d m _ e (vips_at-insert lb.name m lb d);
  deleted = λ n ops d m e. sent (drop_name n) ops d m _ e (vips_at-delete n m d);
}
  where
    sent :
        (op : Op) (ops : List Op) (d : Rows) (m : Text) (v : Option (Dict Text))
        → some (op ∷ []) ≡ some ops
        → vips_at m (effect op d) ≡ v
        → vips_at m (effects ops d) ≡ v
    sent op ops d m v e h = let shape : ops ≡ op ∷ [] = cc in rw shape h

pub service_tables : ServiceTables balancers switches whole effects
service_tables = record {
  table = balancers-LbTable;
  options_updated = λ lb ops d m e. options_kept lb ops d m e;
  switch_commits = table_client-Commits;
  attached = λ name uuids ops d m e. switch_kept ops d m e;
}
  where
    options_kept :
        (lb : LoadBalancer) (ops : List Op) (d : Rows) (m : Text)
        → some (put_options lb ∷ []) ≡ some ops
        → vips_at m (effects ops d) ≡ vips_at m d
    options_kept lb ops d m e =
        let shape : ops ≡ put_options lb ∷ [] = cc in rw shape (vips_at-options lb m d)

    switch_kept :
        (ops : List Op) (d : Rows) (m : Text)
        → some (switch_op ∷ []) ≡ some ops
        → vips_at m (effects ops d) ≡ vips_at m d
    switch_kept ops d m e = let shape : ops ≡ switch_op ∷ [] = cc in rw shape refl
