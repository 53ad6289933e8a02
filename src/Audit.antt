-- ===== src/Audit.antt =====
-- The audit trail (src/modules/audit).
pub mod Service
pub mod Pages
