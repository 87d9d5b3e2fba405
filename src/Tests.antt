-- ===== src/Tests.antt =====
-- The theorems applied at concrete inputs.
mod Toy
pub mod Texts
pub mod Phases
pub mod Steps
pub mod Mods
pub mod Passes
pub mod Boot
pub mod Chain
pub mod Slow
pub mod Servers
