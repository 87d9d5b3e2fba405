-- ===== src/Reconcile.antt =====
-- internal/reconcile: the helpers that the controllers orchestrate.
pub mod Names
pub mod Job
pub mod Pod
pub mod Storage
pub mod Service
pub mod Ini
pub mod Status
