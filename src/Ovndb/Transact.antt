-- ===== src/Ovndb/Transact.antt =====
-- pkg/ovndb/transact.go: transactions with a retry while the client is disconnected. The client of
-- libovsdb is a parameter; polling ends at the context's deadline, here after a number of polls.
use zstack_ovn_kubernetes.Base.{
  ℕ, zero, suc, ◌≡◌, refl, sym, ap, ◌∙◌, Bool, true, false, List, [], ◌∷◌, ◌++◌, Text, codes,
  has_prefix, ltb, length, ◌&&◌, if◌then◌else◌, Bool-cases, inl, inr,
}
use zstack_ovn_kubernetes.Ovndb.Errors.{Result, ok, err, Step, operation_failed}

-- What c.Transact answers: the UUID of each operation's result, "not connected", or another error.
pub data Reply : Type 0 where
  replies : List Text → Reply
  disconnected : Reply
  refused : Reply

-- libovsdb's client on a database state S, with operations Op: c.Transact and CheckOperationResults.
pub record Client (S Op : Type 0) : Type 0 where
  pub transact : List Op → S → S × Reply
  pub check_results : List Text → List Op → Bool

abbrev pub build_named_uuid : Text → Text
build_named_uuid name = codes "named-uuid-" ++ name

abbrev pub is_named_uuid : Text → Bool
is_named_uuid uuid = ltb 11 (length uuid) && has_prefix uuid (codes "named-uuid-")

-- OperationBuilder: the operations gathered so far. A list that was built is read before Clear, after
-- which the builder writes over the same array.
abbrev pub new_operation_builder {ℓ} : {Op : Type ℓ} → List Op
new_operation_builder = []

abbrev pub add_operation {ℓ} : {Op : Type ℓ} → Op → List Op → List Op
add_operation op ops = ops ++ op ∷ []

abbrev pub add_all {ℓ} : {Op : Type ℓ} → List Op → List Op → List Op
add_all more ops = ops ++ more

abbrev pub clear_builder {ℓ} : {Op : Type ℓ} → List Op → List Op
clear_builder ops = []

-- The transaction's rows: what a client does to a database, seen as its rows.
pub record Commits {S Op R : Type 0} (c : Client S Op) (rows : S → R) (effects : List Op → R → R)
    : Type 0 where
  pub applied :
      (ops : List Op) (s t : S) (us : List Text)
      → c.transact ops s ≡ (t, replies us)
      → c.check_results us ops ≡ true
      → rows t ≡ effects ops (rows s)
  pub aborted :
      (ops : List Op) (s t : S) (us : List Text)
      → c.transact ops s ≡ (t, replies us)
      → c.check_results us ops ≡ false
      → rows t ≡ rows s
  pub offline : (ops : List Op) (s t : S) → c.transact ops s ≡ (t, disconnected) → rows t ≡ rows s
  pub rejected : (ops : List Op) (s t : S) → c.transact ops s ≡ (t, refused) → rows t ≡ rows s
  pub no_effect : (r : R) → effects [] r ≡ r

module _ {S Op : Type 0} (c : Client S Op) where
  abbrev on_reply : (S → S × Result (List Text)) → S × Reply → S × Result (List Text)
  on_reply again (t, replies us) = (t, ok us)
  on_reply again (t, disconnected) = again t
  on_reply again (t, refused) = (t, err operation_failed)

  unfoldable pub transact_with_retry : ℕ → List Op → Step S (List Text)
  transact_with_retry zero ops s = (s, err operation_failed)
  transact_with_retry (suc polls) ops s =
      on_reply (transact_with_retry polls ops) (c.transact ops s)

  abbrev checked : List Op → S × Result (List Text) → S × Result (List Text)
  checked ops (t, ok us) = if c.check_results us ops then (t, ok us) else (t, err operation_failed)
  checked ops (t, err e) = (t, err operation_failed)

  unfoldable pub transact_and_check : ℕ → List Op → Step S (List Text)
  unfolding transact_with_retry
  transact_and_check polls [] s = (s, ok ([] ∷ []))
  transact_and_check polls (op ∷ ops) s =
      checked (op ∷ ops) (transact_with_retry polls (op ∷ ops) s)

  -- A transaction either applies all its operations or leaves the rows as they were.
  abbrev pub Atomic :
      {R : Type 0} → (S → R) → (List Op → R → R) → List Op → S → S × Result (List Text) → Type 0
  Atomic rows effects ops s (t, ok us) = rows t ≡ effects ops (rows s)
  Atomic rows effects ops s (t, err e) = rows t ≡ rows s

  module _ {R : Type 0} (rows : S → R) (effects : List Op → R → R)
      (laws : Commits c rows effects) where
    checked-Atomic :
        (ops : List Op) (s t : S) (us : List Text)
        → c.transact ops s ≡ (t, replies us)
        → Atomic rows effects ops s (checked ops (t, ok us))
    checked-Atomic ops s t us e = elim (Bool-cases (c.check_results us ops)) [
      | inl good ↦ rw good (laws.applied ops s t us e good)
      | inr bad ↦ rw bad (laws.aborted ops s t us e bad)
    ]

    checked-later :
        (ops : List Op) (s t : S) (r : S × Result (List Text))
        → rows t ≡ rows s
        → Atomic rows effects ops t (checked ops r)
        → Atomic rows effects ops s (checked ops r)
    checked-later ops s t (u, err x) e h = h ∙ e
    checked-later ops s t (u, ok us) e h = elim (Bool-cases (c.check_results us ops)) [
      | inl good ↦ rw good (rw good at h ∙ ap (effects ops) e)
      | inr bad ↦ rw bad (rw bad at h ∙ e)
    ]

    retry-Atomic :
        (polls : ℕ) (ops : List Op) (s : S)
        → Atomic rows effects ops s (checked ops (transact_with_retry polls ops s))
    unfolding transact_with_retry
    retry-Atomic zero ops s = refl
    retry-Atomic (suc polls) ops s = by_reply (retry-Atomic polls ops) (c.transact ops s) refl
      where
        by_reply :
            ((t : S) → Atomic rows effects ops t (checked ops (transact_with_retry polls ops t)))
            → (r : S × Reply) → c.transact ops s ≡ r
            → Atomic rows effects ops s (checked ops (on_reply (transact_with_retry polls ops) r))
        by_reply again (t, replies us) e = checked-Atomic ops s t us e
        by_reply again (t, disconnected) e =
            checked-later ops s t (transact_with_retry polls ops t) (laws.offline ops s t e)
              (again t)
        by_reply again (t, refused) e = laws.rejected ops s t e

    -- With a client that commits a transaction as a whole or not at all, TransactAndCheck does so too,
    -- for any number of retries: on success the rows are those with all operations applied, and on
    -- every error they are as before.
    pub transact_and_check-Atomic :
        (polls : ℕ) (ops : List Op) (s : S)
        → Atomic rows effects ops s (transact_and_check polls ops s)
    unfolding transact_and_check
    transact_and_check-Atomic polls [] s = sym (laws.no_effect (rows s))
    transact_and_check-Atomic polls (op ∷ ops) s = retry-Atomic polls (op ∷ ops) s
