-- ===== src/Ovndb.antt =====
-- pkg/ovndb: operations on the rows of the OVN northbound database.
pub mod Errors
pub mod Transact
pub mod Acl
pub mod Vip
pub mod Table
pub mod LoadBalancer
pub mod LogicalSwitch
pub mod LogicalSwitchPort
pub mod Zstack
pub mod PortName
pub mod Examples
