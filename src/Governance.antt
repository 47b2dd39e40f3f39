-- ===== src/Governance.antt =====
-- The governance system contract (crates/solen-system-contracts/src/governance.rs).
pub mod State
pub mod Operations
pub mod Ballots
pub mod Outcome
pub mod Once
pub mod Execution
mod Tests
