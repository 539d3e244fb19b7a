-- ===== src/Workload.antt =====
-- crates/picloud-workload and the workload types of crates/picloud-domain.
pub mod Limits
pub mod Spec
pub mod Scheduler
pub mod Drain
pub mod Tests
