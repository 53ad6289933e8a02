-- ===== src/Fees.antt =====
-- The fees module (src/modules/fees).
pub mod Entities
pub mod Service
pub mod Bounds
pub mod Rules
pub mod Coherence
pub mod Seeds
