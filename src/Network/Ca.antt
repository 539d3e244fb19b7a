-- ===== src/Network/Ca.antt =====
-- crates/picloud-network/src/ca.
pub mod Enrollment
pub mod Revocation
