-- ===== src/Fraud.antt =====
-- The fraud module (src/modules/fraud).
pub mod Entities
pub mod State
pub mod Checks
pub mod Service
pub mod Frame
pub mod Alerts
pub mod DailyLimit
pub mod Velocity
pub mod Gate
pub mod Withdrawals
pub mod Seeds
