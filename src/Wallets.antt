-- ===== src/Wallets.antt =====
-- The wallets module (src/modules/wallets).
pub mod Entities
pub mod Service
pub mod Effects
pub mod Invariant
pub mod Preserved
pub mod Movement
pub mod Queries
