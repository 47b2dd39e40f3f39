-- ===== src/Vesting.antt =====
-- The vesting contract (crates/solen-system-contracts/src/vesting.rs).
pub mod State
pub mod Schedules
pub mod Claims
mod Tests
