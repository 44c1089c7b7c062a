-- ===== src/Ovn/Service/Reconciled.antt =====
-- pkg/ovn/service_controller.go: reconcileService with its cleanup, on the virtual addresses.
use zstack_ovn_kubernetes.Base.{◌≡◌, List, Text}
use zstack_ovn_kubernetes.Base.Dict.{Dict}
use zstack_ovn_kubernetes.Ovndb.Errors.{Result}
use zstack_ovn_kubernetes.Ovndb.LoadBalancer.{LoadBalancer, LbClient}
use zstack_ovn_kubernetes.Ovndb.LoadBalancer.Rows.{vips_at}
use zstack_ovn_kubernetes.Ovndb.LogicalSwitch.{SwitchClient}
use zstack_ovn_kubernetes.Ovn.Service.Ports.{Api, Service}
use zstack_ovn_kubernetes.Ovn.Service.Quiet.{ServiceTables}

module _ {S Op : Type 0} (lbs : LbClient S Op) (switches : SwitchClient S Op) (api : Api)
    (rows : S → Dict LoadBalancer) (effects : List Op → Dict LoadBalancer → Dict LoadBalancer)
    (tables : ServiceTables lbs switches rows effects) (svc : Service) where
  abbrev KeptAt : {A : Type 0} → Text → S → S × Result A → Type 0
  KeptAt m s r = vips_at m (rows r.0) ≡ vips_at m (rows s)
