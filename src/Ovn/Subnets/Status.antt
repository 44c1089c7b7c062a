-- ===== src/Ovn/Subnets/Status.antt =====
-- pkg/ovn/subnet_controller.go: updateStatusActive and updateStatusFailed; api/v1/subnet_types.go: SubnetStatus.
use zstack_ovn_kubernetes.Base.{ℕ, List, [], ◌++◌, Text, codes, decimal, Bool, Option, none, some}
use zstack_ovn_kubernetes.Allocator.Subnet.{SubnetAllocator, free, used}
use zstack_ovn_kubernetes.Ovn.Subnets.{Subnet, Condition, update_condition}

-- The phase is a field of the Subnet.
pub record SubnetStatus : Type 0 where
  pub reason : Text
  pub message : Text
  pub available_ips : ℕ
  pub used_ips : ℕ
  pub logical_switch : Text
  pub conditions : List Condition
  pub last_update_time : Option ℕ

-- A Subnet with its metadata and its status.
pub record SubnetObject : Type 0 where
  pub spec : Subnet
  pub finalizers : List Text
  pub is_deleted : Bool
  pub status : SubnetStatus

abbrev pub available_of : Option SubnetAllocator → ℕ
available_of none = 0
available_of (some a) = free a

abbrev pub used_of : Option SubnetAllocator → ℕ
used_of none = 0
used_of (some a) = used a

abbrev pub condition : Text → Text → Text → Text → ℕ → Condition
condition type status reason message now = record {
  type = type;
  status = status;
  reason = reason;
  message = message;
  last_transition_time = now;
}

abbrev pub active_conditions : ℕ → Text → ℕ → List Condition → List Condition
active_conditions now switch available conditions =
    update_condition now
      (update_condition now
        (update_condition now conditions (
          condition (codes "Ready") (codes "True") (codes "SubnetReady")
            (codes "Subnet is ready for use") now))
        (condition (codes "LogicalSwitchReady") (codes "True") (codes "LogicalSwitchReady")
          (codes "Logical Switch " ++ (switch ++ codes " is ready")) now))
      (condition (codes "IPPoolReady") (codes "True") (codes "IPPoolReady")
        (codes "IP pool initialized with " ++ (decimal available ++ codes " available IPs")) now)

-- One time stands for the readings of the clock in an update.
unfoldable pub active_object : ℕ → Text → Option SubnetAllocator → SubnetObject → SubnetObject
unfolding update_condition free used decimal
active_object now switch a o = record o {
  spec = record o.spec { phase = codes "Active" };
  status = record {
    reason = [];
    message = codes "Subnet is ready for use";
    available_ips = available_of a;
    used_ips = used_of a;
    logical_switch = switch;
    conditions = active_conditions now switch (available_of a) o.status.conditions;
    last_update_time = some now;
  };
}

unfoldable pub failed_object : ℕ → Text → SubnetObject → SubnetObject
unfolding update_condition
failed_object now reason o = record o {
  spec = record o.spec { phase = codes "Failed" };
  status = record o.status {
    reason = reason;
    message = codes "Subnet configuration failed: " ++ reason;
    conditions =
        update_condition now o.status.conditions
          (condition (codes "Ready") (codes "False") (codes "SubnetFailed") reason now);
    last_update_time = some now;
  };
}
