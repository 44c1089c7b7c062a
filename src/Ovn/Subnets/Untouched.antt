-- ===== src/Ovn/Subnets/Untouched.antt =====
-- pkg/ovn/subnet_controller.go: the switches that Reconcile of a subnet does not write.
use zstack_ovn_kubernetes.Ovn.Finalizers.{contains_finalizer}
use zstack_ovn_kubernetes.Base.{
  either, ◌≡◌, ◌⊎◌, refl, ◌∙◌, inl, inr, ℕ, Bool, true, false, not, [], ◌∷◌, Text, codes, Option,
  none, some, text_eq,
}
use zstack_ovn_kubernetes.Base.Dict.{Dict, lookup, delete}
use zstack_ovn_kubernetes.Allocator.Subnet.{SubnetAllocator}
use zstack_ovn_kubernetes.Allocator.Subnet.Errors.{Outcome}
use zstack_ovn_kubernetes.Ovndb.Errors.{Result, ok, err, is_not_found, wrap_result, follow}
use zstack_ovn_kubernetes.Ovndb.Table.{entries, discard}
use zstack_ovn_kubernetes.Ovndb.LogicalSwitch.{LogicalSwitch, SwitchClient, get_logical_switch}
use zstack_ovn_kubernetes.Ovndb.Zstack.{
  is_zstack_managed, is_our_managed, our_marked, managed_by_key, info_of,
}
use zstack_ovn_kubernetes.Ovndb.Zstack.Guarded.{
  validate_external_logical_switch, get_logical_switch_info, safe_create_logical_switch,
  safe_delete_logical_switch, validated,
}
use zstack_ovn_kubernetes.Config.{Config}
use zstack_ovn_kubernetes.Config.External
use zstack_ovn_kubernetes.Ovn.Subnets.{
  Subnet, is_external_mode, get_logical_switch_name, ensure_ip_allocator,
}
use zstack_ovn_kubernetes.Ovn.Subnets.Status.{SubnetObject}
use zstack_ovn_kubernetes.Ovn.Subnets.Switch.{
  switch_config, switch_ids, marked_ours, after_validation, unless_missing,
  verify_external_logical_switch, ensure_logical_switch, delete_subnet_switch,
}
use zstack_ovn_kubernetes.Ovn.Subnets.Reconcile.{
  SubnetRead, found, missing, failed, SubnetApi, SubnetState, SubnetError, SubnetAnswer, done,
  requeue, failure, panicked, unfinished, subnet_finalizer, validate_subnet, after_status,
  update_status_active, update_status_failed, after_allocator, after_switch, switch_step,
  after_validate, reconcile_subnet, after_update, drop_finalizer, after_delete,
  handle_subnet_deletion, reported, present, after_read, reconcile_subnet_request,
}

marked_ours-is_our_managed : (ls : LogicalSwitch) → marked_ours ls ≡ is_our_managed ls
unfolding is_our_managed text_eq
marked_ours-is_our_managed ls = by_value (lookup managed_by_key (entries ls.external_ids))
  where
    by_value :
        (v : Option Text)
        → text_eq (elim v [ none ↦ [] | some t ↦ t ]) (codes "zstack-ovn-kubernetes") ≡ our_marked v
    by_value none = refl
    by_value (some t) = refl

module _ {S Op : Type 0} (switches : SwitchClient S Op) where
  get_logical_switch-state : (name : Text) (d : S) → (get_logical_switch switches name d).0 ≡ d
  unfolding get_logical_switch
  get_logical_switch-state [] d = refl
  get_logical_switch-state (c ∷ name) d =
      either (λ (r : S × Result LogicalSwitch). r.0 ≡ d) (switches.connected d) _ _ refl refl

  read-state :
      {A : Type 0} (f : LogicalSwitch → A) (d : S) (r : S × Result LogicalSwitch)
      → r.0 ≡ d
      → (follow (λ ls. λ t. (t, ok (f ls))) r).0 ≡ d
  read-state f d (t, ok ls) e = e
  read-state f d (t, err x) e = e

  get_logical_switch_info-state :
      (name : Text) (d : S) → (get_logical_switch_info switches name d).0 ≡ d
  unfolding get_logical_switch_info
  get_logical_switch_info-state name d =
      read-state info_of d (get_logical_switch switches name d) (get_logical_switch-state name d)

  after_validation-state :
      (name : Text) (d : S) (r : S × Result LogicalSwitch)
      → r.0 ≡ d
      → (after_validation switches name (validated switches name r)).0 ≡ d
  after_validation-state name d (t, ok ls) e = get_logical_switch_info-state name t ∙ e
  after_validation-state name d (t, err x) e =
      either (λ (r : S × Result LogicalSwitch). (after_validation switches name r).0 ≡ d)
        (is_not_found x) _ _ e e

  verify_external_logical_switch-state :
      (name : Text) (d : S) → (verify_external_logical_switch switches name d).0 ≡ d
  unfolding verify_external_logical_switch validate_external_logical_switch
  verify_external_logical_switch-state [] d = refl
  verify_external_logical_switch-state (c ∷ name) d =
      after_validation-state (c ∷ name) d (get_logical_switch switches (c ∷ name) d)
        (get_logical_switch-state (c ∷ name) d)

  wrap_result-state :
      {A : Type 0} (message : Text) (r : S × Result A) → (wrap_result message r).0 ≡ r.0
  wrap_result-state message (t, ok a) = refl
  wrap_result-state message (t, err e) = refl

  discard-state : {A : Type 0} (r : S × Result A) → (discard r).0 ≡ r.0
  discard-state (t, ok a) = refl
  discard-state (t, err e) = refl

  unless_missing-state : (r : S × Result Unit) → (unless_missing switches r).0 ≡ r.0
  unless_missing-state (t, ok u) = refl
  unless_missing-state (t, err e) =
      either (λ (r : S × Result Unit). r.0 ≡ t) (is_not_found e) _ _ refl refl

  -- The row of a switch that this program does not manage.
  abbrev pub FoundForeign : Text → S → Type 0
  FoundForeign name d =
      (ls : LogicalSwitch) × (get_logical_switch switches name d ≡ (d, ok ls))
      × (is_our_managed ls ≡ false)

  module _ (name : Text) (d : S) (foreign : FoundForeign name d) where
    safe_create_logical_switch-Foreign :
        (config ids : Option (Dict Text))
        → (safe_create_logical_switch switches name config ids d).0 ≡ d
    unfolding safe_create_logical_switch
    safe_create_logical_switch-Foreign config ids =
        rw (foreign.1, foreign.2)
          (either (λ (r : S × Result LogicalSwitch). r.0 ≡ d) (is_zstack_managed foreign.0) _ _ refl
            refl)

    safe_delete_logical_switch-Foreign : (safe_delete_logical_switch switches name d).0 ≡ d
    unfolding safe_delete_logical_switch
    safe_delete_logical_switch-Foreign =
        rw (foreign.1, foreign.2)
          (either (λ (r : S × Result Unit). r.0 ≡ d) (is_zstack_managed foreign.0) _ _ refl refl)

    not_marked : marked_ours foreign.0 ≡ false
    not_marked = marked_ours-is_our_managed foreign.0 ∙ foreign.2

    ensure_logical_switch-Foreign :
        (cfg : Config) (subnet : Subnet) → (ensure_logical_switch switches cfg subnet name d).0 ≡ d
    unfolding ensure_logical_switch
    ensure_logical_switch-Foreign cfg subnet =
        let created =
          safe_create_logical_switch switches name
            (some (switch_config subnet.cidr subnet.exclude_ips)) (some (switch_ids subnet.name))
            d in
        either (λ (r : S × Result Unit). r.0 ≡ d) (External.is_external_mode cfg) _ _
          (wrap_result-state (codes "failed to safely create Logical Switch") (discard created)
            ∙ discard-state created
            ∙ safe_create_logical_switch-Foreign
                (some (switch_config subnet.cidr subnet.exclude_ips))
                (some (switch_ids subnet.name)))
          (rw (foreign.1, not_marked) refl)

  -- The subnet names a switch of another's, or there is such a switch under its name.
  abbrev pub Foreign : Subnet → S → Type 0
  Foreign subnet d =
      (is_external_mode subnet ≡ true) ⊎ FoundForeign (get_logical_switch_name subnet) d

  delete_subnet_switch-Foreign :
      (cfg : Config) (subnet : Subnet) (d : S)
      → Foreign subnet d
      → (delete_subnet_switch switches cfg subnet d).0 ≡ d
  unfolding delete_subnet_switch
  delete_subnet_switch-Foreign cfg subnet d (inl external) = rw external refl
  delete_subnet_switch-Foreign cfg subnet d (inr foreign) =
      let name = get_logical_switch_name subnet in
      either (λ (r : S × Result Unit). r.0 ≡ d) (is_external_mode subnet) _ _ refl
        (either (λ (r : S × Result Unit). r.0 ≡ d) (External.is_external_mode cfg) _ _
          (unless_missing-state (safe_delete_logical_switch switches name d)
            ∙ safe_delete_logical_switch-Foreign name d foreign)
          (rw (foreign.1, not_marked name d foreign) refl))

module _ {K S Op : Type 0} (api : SubnetApi K) (switches : SwitchClient S Op) (cfg : Config)
    (rounds : ℕ) (text_of : SubnetError → Text) where
  switch_step-Foreign :
      (subnet : Subnet) (d : S)
      → Foreign switches subnet d
      → (switch_step api switches cfg rounds text_of subnet d).0 ≡ d
  switch_step-Foreign subnet d (inl external) =
      rw external (verify_external_logical_switch-state switches subnet.external_logical_switch d)
  switch_step-Foreign subnet d (inr foreign) =
      let name = get_logical_switch_name subnet in
      either (λ (r : S × Result Unit). r.0 ≡ d) (is_external_mode subnet) _ _
        (verify_external_logical_switch-state switches name d)
        (ensure_logical_switch-Foreign switches name d foreign cfg subnet)

  after_status-db :
      (o : SubnetObject) (s : SubnetState K S) (r : K × Bool)
      → (after_status api switches cfg rounds text_of o s r).state.db ≡ s.db
  after_status-db o s (k, true) = refl
  after_status-db o s (k, false) = refl

  after_allocator-db :
      (o : SubnetObject) (s : SubnetState K S) (r : Outcome (Dict SubnetAllocator))
      → (after_allocator api switches cfg rounds text_of o s r).state.db ≡ s.db
  unfolding update_status_active
  after_allocator-db o s (Outcome.ok m) = after_status-db _ (record s { allocators = m }) _
  after_allocator-db o s (Outcome.err e) = refl
  after_allocator-db o s Outcome.panic = refl
  after_allocator-db o s Outcome.running = refl

  after_switch-db :
      (o : SubnetObject) (s : SubnetState K S) (r : S × Result Unit)
      → (after_switch api switches cfg rounds text_of o s r).state.db ≡ r.0
  after_switch-db o s (d, err e) = refl
  after_switch-db o s (d, ok u) =
      after_allocator-db o (record s { db = d }) (ensure_ip_allocator rounds o.spec s.allocators)

  after_validate-db :
      (o : SubnetObject) (s : SubnetState K S) (x : SubnetAnswer)
      → Foreign switches o.spec s.db
      → (after_validate api switches cfg rounds text_of o s x).state.db ≡ s.db
  after_validate-db o s done h =
      after_switch-db o s (switch_step api switches cfg rounds text_of o.spec s.db)
      ∙ switch_step-Foreign o.spec s.db h
  after_validate-db o s requeue h = refl
  after_validate-db o s (failure e) h = refl
  after_validate-db o s panicked h = refl
  after_validate-db o s unfinished h = refl

  reported-db :
      (o : SubnetObject) (s : SubnetState K S) (x : SubnetAnswer)
      → (reported api switches cfg rounds text_of o s x).0.db ≡ s.db
  unfolding update_status_failed
  reported-db o s done = refl
  reported-db o s requeue = refl
  reported-db o s (failure e) = refl
  reported-db o s panicked = refl
  reported-db o s unfinished = refl

  after_update-db :
      (x : SubnetAnswer) (s : SubnetState K S) (r : K × Bool)
      → (after_update api switches cfg rounds text_of x s r).0.db ≡ s.db
  after_update-db x s (k, true) = refl
  after_update-db x s (k, false) = refl

  drop_finalizer-db :
      (o : SubnetObject) (s : SubnetState K S)
      → (drop_finalizer api switches cfg rounds text_of o s).0.db ≡ s.db
  drop_finalizer-db o s =
      either (λ (r : SubnetState K S × SubnetAnswer). r.0.db ≡ s.db)
        (contains_finalizer subnet_finalizer o.finalizers) _ _ (after_update-db done s _) refl

  after_delete-db :
      (o : SubnetObject) (s : SubnetState K S) (r : S × Result Unit)
      → (after_delete api switches cfg rounds text_of o s r).0.db ≡ r.0
  after_delete-db o s (d, err e) = refl
  after_delete-db o s (d, ok u) =
      drop_finalizer-db o (record s { db = d; allocators = delete o.spec.name s.allocators })

  present-db :
      (o : SubnetObject) (s : SubnetState K S)
      → Foreign switches o.spec s.db
      → (present api switches cfg rounds text_of o s).0.db ≡ s.db
  unfolding reconcile_subnet handle_subnet_deletion
  present-db o s h =
      let r = reconcile_subnet api switches cfg rounds text_of o s in
      either (λ (r : SubnetState K S × SubnetAnswer). r.0.db ≡ s.db) o.is_deleted _ _
        (after_delete-db o s (delete_subnet_switch switches cfg o.spec s.db)
          ∙ delete_subnet_switch-Foreign switches cfg o.spec s.db h)
        (either (λ (r : SubnetState K S × SubnetAnswer). r.0.db ≡ s.db)
          (not (contains_finalizer subnet_finalizer o.finalizers)) _ _ (after_update-db requeue s _)
          (reported-db r.object r.state r.answer
            ∙ after_validate-db o s (validate_subnet rounds o.spec) h))

  -- Reconcile of a subnet writes nothing to the northbound database where the switch belongs to another:
  -- the subnet names an external switch, or the switch under its name exists and lacks this program's
  -- marker. It holds in both deployment modes, for a subnet that is created, changed or deleted, and
  -- whatever the Kubernetes API answers.
  pub reconcile_subnet_request-Foreign :
      (name : Text) (s : SubnetState K S)
      → ((o : SubnetObject) → api.get name s.kube ≡ found o → Foreign switches o.spec s.db)
      → (reconcile_subnet_request api switches cfg rounds text_of name s).0.db ≡ s.db
  unfolding reconcile_subnet_request
  reconcile_subnet_request-Foreign name s h = by_read (api.get name s.kube) h
    where
      by_read :
          (r : SubnetRead)
          → ((o : SubnetObject) → r ≡ found o → Foreign switches o.spec s.db)
          → (after_read api switches cfg rounds text_of s r).0.db ≡ s.db
      by_read missing h = refl
      by_read failed h = refl
      by_read (found o) h = present-db o s (h o refl)
