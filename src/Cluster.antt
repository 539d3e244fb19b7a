-- ===== src/Cluster.antt =====
-- Cluster membership (crates/picloud-cluster): the peer list, mDNS discovery, leadership, voter
-- changes and the cluster identity.
pub mod Peers
pub mod Discovery
pub mod Membership
pub mod Voters
pub mod Identity
mod Tests
