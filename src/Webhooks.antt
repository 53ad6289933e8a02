-- ===== src/Webhooks.antt =====
-- The webhooks module (src/modules/webhooks).
pub mod Entities
pub mod Controller
pub mod Processor
pub mod Stranded
pub mod Dedup
pub mod Signed
