-- ===== src/Exchange.antt =====
-- The exchange rates (src/modules/exchange-rates).
pub mod Service
pub mod Conversion
