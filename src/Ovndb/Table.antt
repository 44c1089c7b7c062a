-- ===== src/Ovndb/Table.antt =====
-- pkg/ovndb: the steps that the operations on switches, ports and load balancers share. libovsdb's client
-- for one table is a parameter; its methods that build operations give none for an error.
use zstack_ovn_kubernetes.Base.{
  ℕ, Bool, List, [], ◌∷◌, Text, codes, Option, none, some, if◌then◌else◌, is_empty,
}
use zstack_ovn_kubernetes.Base.Dict.{Dict, insert, delete}
use zstack_ovn_kubernetes.Ovndb.Errors.{
  Result, ok, err, Step, fail, validation_error, transaction_error, object_not_found, not_connected,
}
use zstack_ovn_kubernetes.Ovndb.Transact.{Client, transact_and_check}

-- What client.Get answers: a row, ErrNotFound, or another error.
pub data Answer (Row : Type 0) : Type 0 where
  row : Row → Answer Row
  absent : Answer Row
  failed : Answer Row

-- Rows of type Row, fields that an update may write, and changes that a mutation may make. Where(model)
-- of a model with a name only is given by that name.
pub record TableClient (S Op Row Field Change : Type 0) : Type 0 where
  pub client : Client S Op
  pub polls : ℕ
  pub connected : S → Bool
  pub get : Text → S → Answer Row
  pub get_uuid : Text → S → Answer Row
  pub list : S → Option (List Row)
  pub select : (Row → Bool) → S → Option (List Row)
  pub create : Row → Option (List Op)
  pub update : Row → List Field → Option (List Op)
  pub delete : Text → Option (List Op)
  pub delete_row : Row → Option (List Op)
  pub mutate : Text → Change → Option (List Op)

-- A Go map that may be nil.
abbrev pub entries : {V : Type 0} → Option (Dict V) → Dict V
entries none = []
entries (some m) = m

-- for k, v := range ids: an empty value deletes its key.
unfoldable pub merge : Dict Text → Dict Text → Dict Text
merge [] m = m
merge ((k, v) ∷ ids) m = merge ids (if is_empty v then delete k m else insert k v m)

abbrev pub require_name : {S A : Type 0} → Text → Text → Step S A → Step S A
require_name field name f = if is_empty name then fail (validation_error field) else f

abbrev pub discard : {S A : Type 0} → S × Result A → S × Result Unit
discard (t, ok a) = (t, ok tt)
discard (t, err e) = (t, err e)

module _ {S Op Row Field Change : Type 0} (t : TableClient S Op Row Field Change) where
  -- NBClient() == nil.
  abbrev pub online : {A : Type 0} → Step S A → Step S A
  online f s = if t.connected s then f s else (s, err not_connected)

  abbrev pub found : Text → Text → Text → Answer Row → Result Row
  found table op key (row r) = ok r
  found table op key absent = err (object_not_found table key)
  found table op key failed = err (transaction_error op key)

  abbrev pub get_row : Text → Text → Text → Step S Row
  get_row table op name =
      require_name (codes "name") name (online (λ s. (s, found table op name (t.get name s))))

  abbrev pub get_row_by_uuid : Text → Text → Text → Step S Row
  get_row_by_uuid table op uuid =
      require_name (codes "uuid") uuid (online (λ s. (s, found table op uuid (t.get_uuid uuid s))))

  abbrev pub listed : Text → Option (List Row) → Result (List Row)
  listed op none = err (transaction_error op [])
  listed op (some rows) = ok rows

  abbrev pub list_rows : Text → Step S (List Row)
  list_rows op = online (λ s. (s, listed op (t.list s)))

  abbrev pub list_rows_with_predicate : Text → (Row → Bool) → Step S (List Row)
  list_rows_with_predicate op p = online (λ s. (s, listed op (t.select p s)))

  -- The operations are sent unless building them failed.
  abbrev pub send : Text → Text → Option (List Op) → Step S (List Text)
  send op name none s = (s, err (transaction_error op name))
  send op name (some ops) s = transact_and_check t.client t.polls ops s

  abbrev pub send_all : Text → Text → Option (List Op) → Step S Unit
  send_all op name ops s = discard (send op name ops s)

  -- UUID = GetUUIDFromResult(results[0]) where there is a result.
  abbrev pub first_result : Text → List Text → Text
  first_result uuid [] = uuid
  first_result uuid (u ∷ us) = u
