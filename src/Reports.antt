-- ===== src/Reports.antt =====
-- The reports module (src/modules/reports).
pub mod Statement
pub mod Summary
pub mod History
pub mod Balance
pub mod Totals
pub mod Consistency
pub mod Breakdown
pub mod Platform
