-- ===== src/Controller.antt =====
-- internal/controller/arkcluster_controller.go: the reconciler of ArkCluster.
pub mod Pods
pub mod Template
pub mod Base
pub mod FirstStart
pub mod Steady
pub mod Roll
pub mod MapStep
pub mod Gc
pub mod Reconcile
pub mod Guarded
pub mod WellFormed
pub mod Settled
