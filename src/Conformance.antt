-- ===== src/Conformance.antt =====
-- The conformance suite: internal/etcd/conformance (suite_workflow.go) and its scenario registry.
pub mod Registry
pub mod Tuning
pub mod Runner
pub mod Suite
pub mod Config
pub mod Run
pub mod Samples
