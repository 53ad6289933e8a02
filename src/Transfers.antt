-- ===== src/Transfers.antt =====
-- The transfers module (src/modules/transfers).
pub mod Entities
pub mod Store
pub mod Service
pub mod Validation
pub mod Atomicity
pub mod Conservation
pub mod Limits
pub mod Schedule
pub mod Queries
