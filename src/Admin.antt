-- ===== src/Admin.antt =====
-- The administration (src/modules/admin).
pub mod Dto
pub mod Rows
pub mod Lists
pub mod Service
pub mod FeeRules
pub mod Accounts
