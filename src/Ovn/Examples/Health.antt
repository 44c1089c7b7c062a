-- ===== src/Ovn/Examples/Health.antt =====
-- A database that applies every transaction, and Reconcile of a policy on it.
use zstack_ovn_kubernetes.Base.{refl, true, List, [], ◌∷◌, codes, some, arith}
use zstack_ovn_kubernetes.Ovndb.Transact.{replies}
use zstack_ovn_kubernetes.Ovndb.Acl.{Acl, NbClient}
use zstack_ovn_kubernetes.Ovndb.Acl.Rows.{select_rows}
use zstack_ovn_kubernetes.Ovndb.Examples.{Op, insert_row, delete_row, effects}
use zstack_ovn_kubernetes.Ovn.Policy.{reconcile_policy}
use zstack_ovn_kubernetes.Ovn.Policy.Success.{Healthy, Succeeds, reconcile_policy-Succeeds}
use zstack_ovn_kubernetes.Ovn.Examples.{web, cluster}

abbrev plain : NbClient (List Acl) Op
plain = record {
  client = record {
    transact = λ ops rows. (effects ops rows, replies []);
    check_results = λ us ops. true;
  };
  polls = 1;
  connected = λ rows. true;
  create = λ a. some (insert_row a ∷ []);
  delete = λ a. some (delete_row a.uuid ∷ []);
  select = λ p rows. some (select_rows p rows);
}

plain-Healthy : Healthy plain
plain-Healthy = record {
  up = λ rows. refl;
  creates = λ a. (insert_row a ∷ [], refl);
  deletes = λ a. (delete_row a.uuid ∷ [], refl);
  selects = λ p rows. (select_rows p rows, refl);
  applies = λ ops rows. (effects ops rows, [], refl, refl);
  polled = (0, refl);
}

reconcile_policy-Succeeds_example :
    Succeeds (reconcile_policy plain cluster (codes "default") (codes "web") [])
reconcile_policy-Succeeds_example =
    reconcile_policy-Succeeds plain plain-Healthy cluster web (codes "10.244.1.5") (codes "" ∷ [])
      [] refl refl (omega arith, omega arith)
