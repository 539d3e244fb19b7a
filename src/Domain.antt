-- ===== src/Domain.antt =====
-- The types that the components share (crates/picloud-domain).
pub mod Error
pub mod Iri
pub mod Events
