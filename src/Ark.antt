-- ===== src/Ark.antt =====
-- internal/ark: the pure helpers of the controllers.
pub mod Ports
pub mod Slug
pub mod Hash
pub mod Launch
