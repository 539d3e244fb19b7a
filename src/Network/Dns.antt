-- ===== src/Network/Dns.antt =====
-- crates/picloud-network/src/dns.
pub mod Cache
pub mod Resolver
