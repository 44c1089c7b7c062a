-- ===== src/Ovn/Subnets/Reconcile.antt =====
-- pkg/ovn/subnet_controller.go: SubnetReconciler's Reconcile and the functions below it.
use zstack_ovn_kubernetes.Ovn.Finalizers.{contains_finalizer, remove_finalizer}
use zstack_ovn_kubernetes.Base.{
  ℕ, Bool, true, false, not, [], ◌∷◌, ◌++◌, Text, codes, if◌then◌else◌, is_empty,
}
use zstack_ovn_kubernetes.Base.Dict.{Dict, lookup, delete}
use zstack_ovn_kubernetes.Allocator.Subnet.{SubnetAllocator}
use zstack_ovn_kubernetes.Allocator.Subnet.Errors.{Outcome}
use zstack_ovn_kubernetes.Allocator.Subnet.Errors
use zstack_ovn_kubernetes.Allocator.Subnet.Exclude.{new_subnet_allocator}
use zstack_ovn_kubernetes.Ovndb.Errors.{Result, ok, err}
use zstack_ovn_kubernetes.Ovndb.Errors as DbErrors
use zstack_ovn_kubernetes.Ovndb.LogicalSwitch.{SwitchClient}
use zstack_ovn_kubernetes.Config.{Config}
use zstack_ovn_kubernetes.Ovn.Subnets.{
  Subnet, is_external_mode, get_logical_switch_name, ensure_ip_allocator,
}
use zstack_ovn_kubernetes.Ovn.Subnets.Status.{SubnetObject, active_object, failed_object}
use zstack_ovn_kubernetes.Ovn.Subnets.Switch.{
  verify_external_logical_switch, ensure_logical_switch, delete_subnet_switch,
}

-- What client.Get answers.
pub data SubnetRead : Type 0 where
  found : SubnetObject → SubnetRead
  missing : SubnetRead
  failed : SubnetRead

-- The Kubernetes API: the state after an update of the object or of its status, with its success, and
-- the clock.
pub record SubnetApi (K : Type 0) : Type 0 where
  pub get : Text → K → SubnetRead
  pub update : SubnetObject → K → K × Bool
  pub update_status : SubnetObject → K → K × Bool
  pub now : K → ℕ

pub record SubnetState (K S : Type 0) : Type 0 where
  pub kube : K
  pub db : S
  pub allocators : Dict SubnetAllocator

pub data SubnetError : Type 0 where
  get_failed : SubnetError
  update_failed : SubnetError
  cidr_required : SubnetError
  invalid_configuration : Errors.Error → SubnetError
  gateway_required : SubnetError
  switch_failed : DbErrors.Error → SubnetError
  allocator_failed : Errors.Error → SubnetError
  status_failed : SubnetError

-- What the functions return: a result with or without Requeue, an error, a panic of the code below,
-- or an allocator's loop without end.
pub data SubnetAnswer : Type 0 where
  done : SubnetAnswer
  requeue : SubnetAnswer
  failure : SubnetError → SubnetAnswer
  panicked : SubnetAnswer
  unfinished : SubnetAnswer

-- The object in memory is changed in place.
pub record Run (K S : Type 0) : Type 0 where
  pub state : SubnetState K S
  pub object : SubnetObject
  pub answer : SubnetAnswer

abbrev pub subnet_finalizer : Text
subnet_finalizer = codes "subnet.network.zstack.io/finalizer"

abbrev pub checked_gateway : Text → Outcome SubnetAllocator → SubnetAnswer
checked_gateway gateway (Outcome.ok a) = if is_empty gateway then failure gateway_required else done
checked_gateway gateway (Outcome.err e) = failure (invalid_configuration e)
checked_gateway gateway Outcome.panic = panicked
checked_gateway gateway Outcome.running = unfinished

-- `done` for a nil error. An allocator is made and dropped.
unfoldable pub validate_subnet : ℕ → Subnet → SubnetAnswer
unfolding new_subnet_allocator
validate_subnet rounds s =
    if is_empty s.cidr
    then failure cidr_required
    else checked_gateway s.gateway (new_subnet_allocator rounds s.cidr s.exclude_ips)

-- The rounds bound the loops over exclusions; `text_of` is Error() of an error.
module _ {K S Op : Type 0} (api : SubnetApi K) (switches : SwitchClient S Op) (cfg : Config)
    (rounds : ℕ) (text_of : SubnetError → Text) where
  abbrev pub stop : SubnetError → SubnetObject → SubnetState K S → Run K S
  stop e o s = record { state = s; object = o; answer = failure e }

  abbrev pub after_status : SubnetObject → SubnetState K S → K × Bool → Run K S
  after_status o s (k, true) = record { state = record s { kube = k }; object = o; answer = done }
  after_status o s (k, false) = stop status_failed o (record s { kube = k })

  unfoldable pub update_status_active : Text → SubnetObject → SubnetState K S → Run K S
  unfolding active_object
  update_status_active switch o s =
      let p = active_object (api.now s.kube) switch (lookup o.spec.name s.allocators) o in
      after_status p s (api.update_status p s.kube)

  -- The error of the update is dropped by the caller.
  unfoldable pub update_status_failed : Text → SubnetObject → SubnetState K S → SubnetState K S
  unfolding failed_object
  update_status_failed reason o s = record s {
    kube = (api.update_status (failed_object (api.now s.kube) reason o) s.kube).0;
  }

  abbrev pub after_allocator :
      SubnetObject → SubnetState K S → Outcome (Dict SubnetAllocator) → Run K S
  after_allocator o s (Outcome.ok m) =
      update_status_active (get_logical_switch_name o.spec) o (record s { allocators = m })
  after_allocator o s (Outcome.err e) = stop (allocator_failed e) o s
  after_allocator o s Outcome.panic = record { state = s; object = o; answer = panicked }
  after_allocator o s Outcome.running = record { state = s; object = o; answer = unfinished }

  abbrev pub after_switch : SubnetObject → SubnetState K S → S × Result Unit → Run K S
  after_switch o s (d, err e) = stop (switch_failed e) o (record s { db = d })
  after_switch o s (d, ok u) =
      after_allocator o (record s { db = d }) (ensure_ip_allocator rounds o.spec s.allocators)

  abbrev pub switch_step : Subnet → S → S × Result Unit
  switch_step spec d =
      if is_external_mode spec
      then verify_external_logical_switch switches (get_logical_switch_name spec) d
      else ensure_logical_switch switches cfg spec (get_logical_switch_name spec) d

  abbrev pub after_validate : SubnetObject → SubnetState K S → SubnetAnswer → Run K S
  after_validate o s done = after_switch o s (switch_step o.spec s.db)
  after_validate o s requeue = record { state = s; object = o; answer = requeue }
  after_validate o s (failure e) = stop e o s
  after_validate o s panicked = record { state = s; object = o; answer = panicked }
  after_validate o s unfinished = record { state = s; object = o; answer = unfinished }

  unfoldable pub reconcile_subnet : SubnetObject → SubnetState K S → Run K S
  unfolding validate_subnet verify_external_logical_switch ensure_logical_switch ensure_ip_allocator
      update_status_active
  reconcile_subnet o s = after_validate o s (validate_subnet rounds o.spec)

  abbrev pub after_update :
      SubnetAnswer → SubnetState K S → K × Bool → SubnetState K S × SubnetAnswer
  after_update answer s (k, true) = (record s { kube = k }, answer)
  after_update answer s (k, false) = (record s { kube = k }, failure update_failed)

  abbrev pub drop_finalizer : SubnetObject → SubnetState K S → SubnetState K S × SubnetAnswer
  drop_finalizer o s =
      if contains_finalizer subnet_finalizer o.finalizers
      then after_update done s (
          api.update (record o { finalizers = remove_finalizer subnet_finalizer o.finalizers })
            s.kube)
      else (s, done)

  abbrev pub after_delete :
      SubnetObject → SubnetState K S → S × Result Unit → SubnetState K S × SubnetAnswer
  after_delete o s (d, err e) = (record s { db = d }, failure (switch_failed e))
  after_delete o s (d, ok u) =
      drop_finalizer o (record s { db = d; allocators = delete o.spec.name s.allocators })

  unfoldable pub handle_subnet_deletion :
      SubnetObject → SubnetState K S → SubnetState K S × SubnetAnswer
  unfolding delete_subnet_switch contains_finalizer remove_finalizer
  handle_subnet_deletion o s = after_delete o s (delete_subnet_switch switches cfg o.spec s.db)

  -- An error is written to the status, and returned.
  abbrev pub reported :
      SubnetObject → SubnetState K S → SubnetAnswer → SubnetState K S × SubnetAnswer
  reported o s (failure e) = (update_status_failed (text_of e) o s, failure e)
  reported o s done = (s, done)
  reported o s requeue = (s, requeue)
  reported o s panicked = (s, panicked)
  reported o s unfinished = (s, unfinished)

  abbrev pub present : SubnetObject → SubnetState K S → SubnetState K S × SubnetAnswer
  present o s =
      if o.is_deleted
      then handle_subnet_deletion o s
      else if not (contains_finalizer subnet_finalizer o.finalizers)
      then after_update requeue s
          (api.update (record o { finalizers = o.finalizers ++ subnet_finalizer ∷ [] }) s.kube)
      else (let r = reconcile_subnet o s in reported r.object r.state r.answer)

  abbrev pub after_read : SubnetState K S → SubnetRead → SubnetState K S × SubnetAnswer
  after_read s missing = (s, done)
  after_read s failed = (s, failure get_failed)
  after_read s (found o) = present o s

  unfoldable pub reconcile_subnet_request : Text → SubnetState K S → SubnetState K S × SubnetAnswer
  unfolding handle_subnet_deletion reconcile_subnet update_status_failed contains_finalizer
  reconcile_subnet_request name s = after_read s (api.get name s.kube)
