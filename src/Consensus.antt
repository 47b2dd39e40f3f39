-- ===== src/Consensus.antt =====
-- The consensus crate's validator set, proposer selection, quorum, slashing and
-- checkpoints
-- (crates/solen-consensus/src/validator.rs, slashing.rs and
-- checkpoint.rs).
pub mod Validators
pub mod Proposer
pub mod Slashing
pub mod Quorum
pub mod Ordering
pub mod Selection
pub mod Penalties
pub mod Checkpoints
pub mod Attestations
pub mod Retention
mod Tests
