-- ===== src/Treasury.antt =====
-- The treasury contract (crates/solen-system-contracts/src/treasury.rs).
pub mod State
pub mod Books
mod Tests
