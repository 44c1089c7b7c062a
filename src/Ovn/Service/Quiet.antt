-- ===== src/Ovn/Service/Quiet.antt =====
-- pkg/ovn/service_controller.go: attaching a load balancer to switches and setting its options leave all
-- virtual addresses.
use zstack_ovn_kubernetes.Base.{
  ◌≡◌, refl, ap, ◌∙◌, inl, inr, Bool, true, false, List, [], ◌∷◌, Text, codes, Option, none, some,
  if◌then◌else◌, is_empty, Bool-cases,
}
use zstack_ovn_kubernetes.Base.Dict.{Dict}
use zstack_ovn_kubernetes.Ovndb.Errors.{Result, ok, err, Step, done, follow}
use zstack_ovn_kubernetes.Ovndb.Transact.{
  Client, Commits, Atomic, transact_and_check, transact_and_check-Atomic,
}
use zstack_ovn_kubernetes.Ovndb.Table.{TableClient, merge, entries, discard, online, send_all}
use zstack_ovn_kubernetes.Ovndb.LoadBalancer.{
  LoadBalancer, options_field, LbClient, get_load_balancer, set_options, update_load_balancer,
}
use zstack_ovn_kubernetes.Ovndb.LoadBalancer.Rows.{
  vips_at, LbTable, Got, got_row, got_none, got_error, get_load_balancer-Got,
}
use zstack_ovn_kubernetes.Ovndb.LogicalSwitch.{
  SwitchClient, insert_load_balancers, add_load_balancers_to_logical_switch,
}
use zstack_ovn_kubernetes.Ovn.Subnets.{Subnet, is_active, get_logical_switch_name}
use zstack_ovn_kubernetes.Ovn.Service.Ports.{Api, ignored, settled}
use zstack_ovn_kubernetes.Ovn.Service.Ensure.{attach_listed, attach_to_subnets}

-- What the schema says of the other writes: options and the switches' columns are not the addresses of
-- load balancers.
pub record ServiceTables {S Op : Type 0} (lbs : LbClient S Op) (switches : SwitchClient S Op)
    (rows : S → Dict LoadBalancer) (effects : List Op → Dict LoadBalancer → Dict LoadBalancer)
    : Type 0 where
  pub table : LbTable lbs rows effects
  pub options_updated :
      (lb : LoadBalancer) (ops : List Op) (d : Dict LoadBalancer) (m : Text)
      → lbs.update lb (options_field ∷ []) ≡ some ops
      → vips_at m (effects ops d) ≡ vips_at m d
  pub switch_commits : Commits switches.client rows effects
  pub attached :
      (name : Text) (uuids : List Text) (ops : List Op) (d : Dict LoadBalancer) (m : Text)
      → switches.mutate name (insert_load_balancers uuids) ≡ some ops
      → vips_at m (effects ops d) ≡ vips_at m d

module _ {S Op : Type 0} (lbs : LbClient S Op) (switches : SwitchClient S Op) (api : Api)
    (rows : S → Dict LoadBalancer) (effects : List Op → Dict LoadBalancer → Dict LoadBalancer)
    (tables : ServiceTables lbs switches rows effects) where
  -- The addresses at a name are the same in two states.
  abbrev pub Same : Text → S → S → Type 0
  Same m s t = vips_at m (rows t) ≡ vips_at m (rows s)

  -- Whatever its result, the step leaves the addresses at every name.
  abbrev pub Quiet : {A : Type 0} → S → S × Result A → Type 0
  Quiet s r = (m : Text) → Same m s r.0

  Atomic-Quiet :
      (c : Client S Op) (ops : List Op) (s : S)
      → ((d : Dict LoadBalancer) (m : Text) → vips_at m (effects ops d) ≡ vips_at m d)
      → (r : S × Result (List Text)) → Atomic c rows effects ops s r
      → Quiet s r
  Atomic-Quiet c ops s h (t, ok us) a m = ap (vips_at m) a ∙ h (rows s) m
  Atomic-Quiet c ops s h (t, err e) a m = ap (vips_at m) a

  discard-Quiet : {A : Type 0} (s : S) (r : S × Result A) → Quiet s r → Quiet s (discard r)
  discard-Quiet s (t, ok a) q = q
  discard-Quiet s (t, err e) q = q

  pub settled-Quiet : {A : Type 0} (s : S) (r : S × Result A) → Quiet s r → Quiet s (settled r)
  settled-Quiet s (t, r) q = q

  pub follow-Quiet :
      {A B : Type 0} (s : S) (f : A → Step S B) (r : S × Result A)
      → Quiet s r
      → ((a : A) (t : S) → Quiet t (f a t))
      → Quiet s (follow f r)
  follow-Quiet s f (t, ok a) q h m = h a t m ∙ q m
  follow-Quiet s f (t, err e) q h m = q m

  module _ {Row Field Change : Type 0} (t : TableClient S Op Row Field Change)
      (commits : Commits t.client rows effects) where
    send_all-Quiet :
        (op key : Text) (ops : Option (List Op)) (s : S)
        → ((os : List Op)
            → ops ≡ some os
            → (d : Dict LoadBalancer) (m : Text) → vips_at m (effects os d) ≡ vips_at m d)
        → Quiet s (send_all t op key ops s)
    send_all-Quiet op key none s h m = refl
    send_all-Quiet op key (some os) s h m =
        discard-Quiet s (transact_and_check t.client t.polls os s)
          (Atomic-Quiet t.client os s (h os refl) (transact_and_check t.client t.polls os s)
            (transact_and_check-Atomic t.client rows effects commits t.polls os s))
          m

    online-Quiet : {A : Type 0} (s : S) (f : Step S A) → Quiet s (f s) → Quiet s (online t f s)
    online-Quiet s f q = elim (Bool-cases (t.connected s)) [
      | inl e ↦ rw e q
      | inr e ↦ rw e (λ m. refl)
    ]

  pub guarded-Quiet :
      {A : Type 0} (b : Bool) (s : S) (f g : Step S A)
      → Quiet s (f s)
      → Quiet s (g s)
      → Quiet s ((if b then f else g) s)
  guarded-Quiet true s f g p q = p
  guarded-Quiet false s f g p q = q

  add_load_balancers_to_logical_switch-Quiet :
      (name : Text) (uuids : List Text) (s : S)
      → Quiet s (add_load_balancers_to_logical_switch switches name uuids s)
  unfolding add_load_balancers_to_logical_switch
  add_load_balancers_to_logical_switch-Quiet name uuids s =
      let op = codes "AddLoadBalancersToLogicalSwitch" in
      let ops = switches.mutate name (insert_load_balancers uuids) in
      online-Quiet switches tables.switch_commits s (send_all switches op name ops) (
        send_all-Quiet switches tables.switch_commits op name ops s
          (λ os e d m. tables.attached name uuids os d m e))

  attach_to_subnets-Quiet :
      (uuid : Text) (subnets : List Subnet) (s : S)
      → Quiet s (attach_to_subnets lbs switches api uuid subnets s)
  unfolding attach_to_subnets
  attach_to_subnets-Quiet uuid [] s = λ m. refl
  attach_to_subnets-Quiet uuid (n ∷ subnets) s =
      follow-Quiet s (λ x. attach_to_subnets lbs switches api uuid subnets) _
        (guarded-Quiet (is_active n) s
          (ignored
            (add_load_balancers_to_logical_switch switches (get_logical_switch_name n) (uuid ∷ [])))
          (done tt)
          (settled-Quiet s
            (add_load_balancers_to_logical_switch switches (get_logical_switch_name n) (uuid ∷ [])
              s)
            (add_load_balancers_to_logical_switch-Quiet (get_logical_switch_name n) (uuid ∷ []) s))
          (λ m. refl))
        (λ x t. attach_to_subnets-Quiet uuid subnets t)

  pub attach-Quiet :
      (uuid : Text) (subnets : Option (List Subnet)) (s : S)
      → Quiet s (attach_listed lbs switches api uuid subnets s)
  attach-Quiet uuid none s = λ m. refl
  attach-Quiet uuid (some subnets) s = attach_to_subnets-Quiet uuid subnets s

  update_options-Quiet :
      (lb : LoadBalancer) (s : S) → Quiet s (update_load_balancer lbs lb (options_field ∷ []) s)
  unfolding update_load_balancer
  update_options-Quiet lb s =
      let op = codes "UpdateLoadBalancer" in
      let ops = lbs.update lb (options_field ∷ []) in
      guarded-Quiet (is_empty lb.name) s _ _ (λ m. refl)
        (online-Quiet lbs tables.table.commits s (send_all lbs op lb.name ops) (
          send_all-Quiet lbs tables.table.commits op lb.name ops s
            (λ os e d m. tables.options_updated lb os d m e)))

  get-Quiet : (name : Text) (s : S) → Quiet s (get_load_balancer lbs name s)
  get-Quiet name s =
      by_got (get_load_balancer lbs name s)
        (get_load_balancer-Got lbs rows effects tables.table name s)
    where
      by_got :
          (r : S × Result LoadBalancer) → Got lbs rows effects tables.table name s r → Quiet s r
      by_got _ (got_row lb at same) = λ m. refl
      by_got _ (got_none at) = λ m. refl
      by_got _ (got_error e other) = λ m. refl

  pub set_options-Quiet :
      (name : Text) (options : Dict Text) (s : S) → Quiet s (set_options lbs name options s)
  unfolding set_options
  set_options-Quiet name options s =
      follow-Quiet s
        (λ lb.
          update_load_balancer lbs
            (record lb { options = some (merge options (entries lb.options)) })
            (options_field ∷ []))
        (get_load_balancer lbs name s) (get-Quiet name s)
        (λ lb t.
          update_options-Quiet (record lb { options = some (merge options (entries lb.options)) })
            t)
