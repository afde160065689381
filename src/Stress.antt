-- ===== src/Stress.antt =====
-- The stress suite: internal/etcd/stress and its scenarios' shared machinery.
pub mod Floats
pub mod Registry
pub mod Config
pub mod Metrics
pub mod Maintenance
pub mod Samples
