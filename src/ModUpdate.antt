-- ===== src/ModUpdate.antt =====
-- internal/controller/modupdate_controller.go: the polling of mod versions.
pub mod Ids
pub mod Merge
pub mod Pass
pub mod Annotation
