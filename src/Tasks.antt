-- ===== src/Tasks.antt =====
-- The scheduled tasks (src/modules/queue).
pub mod Service
pub mod Cleanup
pub mod Startup
