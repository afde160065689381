-- ===== src/Local.antt =====
-- The local container provider: pkg/providers/local.
pub mod Containers
pub mod Env
pub mod Arguments
pub mod Replacement
pub mod Relaunch
pub mod Manager
pub mod Samples
