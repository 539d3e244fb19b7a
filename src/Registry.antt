-- ===== src/Registry.antt =====
-- The OCI registry of crates/picloud-registry.
pub mod Blobs
pub mod Backend
pub mod Collector
mod Tests
