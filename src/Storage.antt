-- ===== src/Storage.antt =====
-- The storage crate (crates/solen-storage/src): the trait of a key-value store, the store in memory
-- with its Merkle root, and the copy-on-write overlay.
pub mod Traits
pub mod Memory
pub mod Overlay
pub mod Commit
pub mod Laws
pub mod Refinement
pub mod Savepoints
pub mod Prefixes
pub mod Roots
pub mod Coherence
mod Tests
