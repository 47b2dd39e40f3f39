-- ===== src/Guardian.antt =====
-- The guardian recovery contract (crates/solen-system-contracts/src/guardian.rs).
pub mod State
pub mod Operations
pub mod Requests
pub mod History
pub mod Recovery
mod Tests
