-- ===== src/Iam.antt =====
-- crates/picloud-iam: the identity provider of the platform.
pub mod Tokens
pub mod Provider
pub mod Groups
pub mod Issuing
pub mod Signature
pub mod Passkeys
pub mod Ceremonies
pub mod Enrollment
pub mod Clients
pub mod Flows
pub mod Samples
pub mod Tests
pub mod ClientTests
pub mod LoginTests
