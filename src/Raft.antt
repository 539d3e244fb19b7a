-- ===== src/Raft.antt =====
-- Raft storage of crates/picloud-cluster/src/raft.rs: the in-memory log store and state machine.
pub mod Types
pub mod LogStore
pub mod SledLogStore
pub mod StateMachine
pub mod SledStateMachine
mod Tests
mod SledTests
