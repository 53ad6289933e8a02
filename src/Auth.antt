-- ===== src/Auth.antt =====
-- The auth module (src/modules/auth) and the guards (src/common/guards).
pub mod Interfaces
pub mod Service
pub mod Guards
pub mod Lockout
pub mod Sessions
pub mod Registration
pub mod Unlock
pub mod Bodies
pub mod Routes
pub mod Accepted
pub mod Registry
pub mod Accounts
pub mod SignUp
