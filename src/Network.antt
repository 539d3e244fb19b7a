-- ===== src/Network.antt =====
-- crates/picloud-network: the DNS cache and resolver, and enrollment and revocation of the CA.
pub mod Dns
pub mod Ca
mod Tests
