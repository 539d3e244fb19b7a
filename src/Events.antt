-- ===== src/Events.antt =====
-- The event log (crates/picloud-events/src/implementation.rs) and the event router (router.rs).
pub mod Log
pub mod Filter
pub mod Persistent
pub mod Race
pub mod Stores
pub mod Router
pub mod Samples
mod Tests
