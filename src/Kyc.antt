-- ===== src/Kyc.antt =====
-- Identity verification (src/modules/kyc).
pub mod Entities
pub mod Service
pub mod Approval
pub mod Pending
