-- ===== src/Ovn.antt =====
-- pkg/ovn: the controllers.
pub mod Policy
pub mod Service
pub mod Finalizers
pub mod Pod
pub mod Subnets
pub mod Examples
