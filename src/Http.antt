-- ===== src/Http.antt =====
-- The gateway of crates/picloud-http.
pub mod Router
pub mod Versions
pub mod Alerts
mod Tests
