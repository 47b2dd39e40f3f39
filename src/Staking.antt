-- ===== src/Staking.antt =====
-- The staking system contract (crates/solen-system-contracts/src/staking.rs).
-- A method is a function from the contract's state to the new state and the method's result, so an
-- error path shows what it leaves behind. Identifiers are 32 bytes that the contract only compares;
-- they are numbers here.
pub mod State
pub mod Registry
pub mod Delegations
pub mod Rotation
pub mod Sums
pub mod Accounting
pub mod Holdings
pub mod Unbonding
pub mod Membership
pub mod Steps
pub mod Collision
mod Tests
