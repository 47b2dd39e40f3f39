-- ===== src/Execution.antt =====
-- The execution layer's accounts (crates/solen-execution/src/state.rs), above any state store.
pub mod State
pub mod Loading
pub mod Transfers
pub mod Conservation
pub mod Nonces
mod Tests
