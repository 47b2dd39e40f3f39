-- ===== src/Bridge.antt =====
-- The bridge system contract (crates/solen-system-contracts/src/bridge.rs).
pub mod State
pub mod Operations
pub mod Solvency
pub mod Once
pub mod History
pub mod Payouts
mod Tests
