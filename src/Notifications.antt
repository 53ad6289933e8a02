-- ===== src/Notifications.antt =====
-- The notifications module (src/modules/notifications).
pub mod Service
pub mod Processor
