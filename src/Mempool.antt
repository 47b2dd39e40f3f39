-- ===== src/Mempool.antt =====
-- The transaction mempool (crates/solen-consensus/src/mempool.rs).
pub mod Entries
pub mod Pool
pub mod Counting
pub mod Consistency
pub mod Limits
pub mod Draining
pub mod Encrypted
pub mod Reveals
mod Tests
