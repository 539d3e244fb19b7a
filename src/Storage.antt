-- ===== src/Storage.antt =====
-- crates/picloud-storage: volumes and their snapshots.
pub mod Volumes
pub mod Snapshots
pub mod Tests
