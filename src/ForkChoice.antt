-- ===== src/ForkChoice.antt =====
-- The attestation-aware fork choice of the consensus engine (crates/solen-consensus/src/engine.rs).
pub mod State
pub mod Rules
pub mod Leader
pub mod Voting
pub mod Finality
pub mod Keyed
pub mod Decision
pub mod Safety
pub mod Candidates
pub mod Bookkeeping
mod Tests
