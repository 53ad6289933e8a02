-- ===== src/Payments.antt =====
-- The payments module (src/modules/payments).
pub mod Service
pub mod Processor
pub mod Deposits
pub mod Completion
pub mod Withdrawals
pub mod Stranded
pub mod Providers
pub mod Signatures
pub mod SignedHeader
