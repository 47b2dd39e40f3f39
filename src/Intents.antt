-- ===== src/Intents.antt =====
-- The intent pool (crates/solen-intents/src).
pub mod Types
pub mod Pool
pub mod Capacity
pub mod History
pub mod Choice
mod Tests
