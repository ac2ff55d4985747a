-- ===== src/Controller.antt =====
-- internal/controller: the reconciler of Tasks.
pub mod Phase
pub mod Validate
pub mod Build
pub mod Report
pub mod Cluster
pub mod Ensure
pub mod Provision
pub mod Reconciler
pub mod Status
pub mod Terminal
pub mod Reconcile
