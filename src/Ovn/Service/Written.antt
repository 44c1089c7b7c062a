-- ===== src/Ovn/Service/Written.antt =====
-- pkg/ovn/service_controller.go: what ensuring one load balancer does to the virtual addresses.
use zstack_ovn_kubernetes.Base.{
  ◌≡◌, ap, ◌∙◌, Bool, false, List, Text, Option, some, if◌then◌else◌, text_eq, text_eq_refl,
}
use zstack_ovn_kubernetes.Base.Dict.{Dict}
use zstack_ovn_kubernetes.Ovndb.Errors.{Result, ok, err, Step, follow, ◌>>=◌, wrap_result}
use zstack_ovn_kubernetes.Ovndb.LoadBalancer.{LoadBalancer, LbClient, get_load_balancer, set_vips}
use zstack_ovn_kubernetes.Ovndb.LoadBalancer.Rows.{
  vips_at, WriteOutcome, set_vips-WriteOutcome, create_load_balancer-WriteOutcome, Got, got_row,
  got_none, got_error, get_load_balancer-Got,
}
use zstack_ovn_kubernetes.Ovndb.LogicalSwitch.{SwitchClient}
use zstack_ovn_kubernetes.Ovn.Service.{LbKind, build_load_balancer_name}
use zstack_ovn_kubernetes.Ovn.Service.Ports.{
  Api, Service, State, external_ids, ignored, in_state, on_db, track,
}
use zstack_ovn_kubernetes.Ovn.Service.Ensure.{
  attach_load_balancer_to_switches, ensure_found, ensure_load_balancer,
}
use zstack_ovn_kubernetes.Ovn.Service.Quiet.{ServiceTables, Quiet, attach-Quiet}

module _ {S Op : Type 0} (lbs : LbClient S Op) (switches : SwitchClient S Op) (api : Api)
    (rows : S → Dict LoadBalancer) (effects : List Op → Dict LoadBalancer → Dict LoadBalancer)
    (tables : ServiceTables lbs switches rows effects) where
  abbrev pub vips_in : Text → State S → Option (Dict Text)
  vips_in name st = vips_at name (rows st.db)

  -- Where the step succeeds, the addresses at one name are as given, and at every other as before.
  abbrev pub Wrote : Text → Dict Text → State S → State S × Result Unit → Type 0
  Wrote name vips st (u, ok x) =
      (m : Text) → vips_in m u ≡ (if text_eq name m then some vips else vips_in m st)
  Wrote name vips st (u, err e) = Unit {0}

  abbrev pub Q : S → S × Result Unit → Type 0
  Q = Quiet lbs switches api rows effects tables

  -- After the write, a step on the database that keeps all addresses, and then tracking.
  options_then_track :
      (svc : Service) (key uuid name : Text) (vips : Dict Text) (st u : State S)
      (then_options : Step S Unit)
      → ((s : S) → Q s (then_options s))
      → ((m : Text) → vips_in m u ≡ (if text_eq name m then some vips else vips_in m st))
      → Wrote name vips st ((on_db then_options >>= λ y. track svc key uuid) u)
  options_then_track svc key uuid name vips st u then_options quiet w =
      by_result (then_options u.db) (quiet u.db)
    where
      by_result :
          (r : S × Result Unit)
          → Q u.db r
          → Wrote name vips st (follow (λ y. track svc key uuid) (in_state u.service_lbs r))
      by_result (t, ok x) q = λ m. q m ∙ w m
      by_result (t, err e) q = tt

  pub ensure_load_balancer-Wrote :
      (svc : Service) (kind : LbKind) (protocol key : Text) (vips : Dict Text)
      (options : Option (Dict Text)) (then_options : Step S Unit) (st : State S)
      → ((s : S) → Q s (then_options s))
      → Wrote
          (build_load_balancer_name svc.namespace svc.name protocol kind)
          vips
          st
          (ensure_load_balancer lbs switches api svc kind protocol key vips options then_options st)
  unfolding ensure_load_balancer attach_load_balancer_to_switches
  ensure_load_balancer-Wrote svc kind protocol key vips options then_options st quiet =
      by_got (get_load_balancer lbs name st.db)
        (get_load_balancer-Got lbs rows effects tables.table name st.db)
    where
      name : Text
      name = build_load_balancer_name svc.namespace svc.name protocol kind

      by_set :
          (uuid message : Text) (r : S × Result Unit)
          → WriteOutcome lbs rows effects tables.table name (some vips) st.db r
          → Wrote name vips st (
              follow
                (λ x. on_db then_options >>= λ y. track svc key uuid)
                (wrap_result message (in_state st.service_lbs r)))
      by_set uuid message (t, ok x) w =
          options_then_track svc key uuid name vips st
            (record { db = t; service_lbs = st.service_lbs }) then_options quiet w
      by_set uuid message (t, err e) w = tt

      by_create :
          (message : Text) (r : S × Result LoadBalancer)
          → WriteOutcome lbs rows effects tables.table name (some vips) st.db r
          → Wrote name vips st (
              follow
                (λ lb. track svc key lb.uuid >>= λ x.
                  ignored (on_db (attach_load_balancer_to_switches lbs switches api lb.uuid)))
                (wrap_result message (in_state st.service_lbs r)))
      by_create message (t, ok lb) w =
          λ m. attach-Quiet lbs switches api rows effects tables lb.uuid api.list_subnets t m ∙ w m
      by_create message (t, err e) w = tt

      by_got :
          (r : S × Result LoadBalancer)
          → Got lbs rows effects tables.table name st.db r
          → Wrote name vips st (
              ensure_found lbs switches api svc kind name protocol key vips options then_options
                (in_state st.service_lbs r))
      by_got _ (got_row lb at same) =
          by_set lb.uuid _ (set_vips lbs name (some vips) st.db)
            (set_vips-WriteOutcome lbs rows effects tables.table name (some vips) st.db)
      by_got _ (got_none at) = by_create _ _ (
          create_load_balancer-WriteOutcome lbs rows effects tables.table name protocol (some vips)
            options (some (external_ids svc kind)) st.db)
      by_got _ (got_error e other) = rw other tt

  -- Where the step succeeds, the addresses at a name are as before, or are the given ones.
  abbrev pub Keeps : Text → State S → State S × Result Unit → Type 0
  Keeps m st (u, ok x) = vips_in m u ≡ vips_in m st
  Keeps m st (u, err e) = Unit {0}

  abbrev pub Sets : Text → Dict Text → State S × Result Unit → Type 0
  Sets m vips (u, ok x) = vips_in m u ≡ some vips
  Sets m vips (u, err e) = Unit {0}

  pub Wrote-Keeps :
      (name m : Text) (vips : Dict Text) (st : State S) (r : State S × Result Unit)
      → text_eq name m ≡ false
      → Wrote name vips st r
      → Keeps m st r
  Wrote-Keeps name m vips st (u, ok x) other w =
      w m ∙ ap (λ (b : Bool). if b then some vips else vips_in m st) other
  Wrote-Keeps name m vips st (u, err e) other w = tt

  pub Wrote-Sets :
      (name : Text) (vips : Dict Text) (st : State S) (r : State S × Result Unit)
      → Wrote name vips st r
      → Sets name vips r
  Wrote-Sets name vips st (u, ok x) w =
      w name ∙ ap (λ (b : Bool). if b then some vips else vips_in name st) (text_eq_refl name)
  Wrote-Sets name vips st (u, err e) w = tt

  pub wrap-Keeps :
      (message m : Text) (st : State S) (r : State S × Result Unit)
      → Keeps m st r
      → Keeps m st (wrap_result message r)
  wrap-Keeps message m st (u, ok x) k = k
  wrap-Keeps message m st (u, err e) k = tt

  pub wrap-Sets :
      (message m : Text) (vips : Dict Text) (r : State S × Result Unit)
      → Sets m vips r
      → Sets m vips (wrap_result message r)
  wrap-Sets message m vips (u, ok x) k = k
  wrap-Sets message m vips (u, err e) k = tt

  pub follow-Keeps :
      (m : Text) (st : State S) (f : Unit → Step (State S) Unit) (r : State S × Result Unit)
      → Keeps m st r
      → ((x : Unit) (u : State S) → Keeps m u (f x u))
      → Keeps m st (follow f r)
  follow-Keeps m st f (t, ok x) k h = later (f x t) (h x t)
    where
      later : (r : State S × Result Unit) → Keeps m t r → Keeps m st r
      later (u, ok y) e = e ∙ k
      later (u, err y) e = tt
  follow-Keeps m st f (t, err e) k h = tt

  -- Set, and then kept.
  pub set_then_keep :
      (m : Text) (vips : Dict Text) (f : Unit → Step (State S) Unit) (r : State S × Result Unit)
      → Sets m vips r
      → ((x : Unit) (u : State S) → Keeps m u (f x u))
      → Sets m vips (follow f r)
  set_then_keep m vips f (t, ok x) k h = later (f x t) (h x t)
    where
      later : (r : State S × Result Unit) → Keeps m t r → Sets m vips r
      later (u, ok y) e = e ∙ k
      later (u, err y) e = tt
  set_then_keep m vips f (t, err e) k h = tt

  -- Set by what comes second.
  pub then_set :
      (m : Text) (vips : Dict Text) (f : Unit → Step (State S) Unit) (r : State S × Result Unit)
      → ((x : Unit) (u : State S) → Sets m vips (f x u))
      → Sets m vips (follow f r)
  then_set m vips f (t, ok x) h = h x t
  then_set m vips f (t, err e) h = tt
