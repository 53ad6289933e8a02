-- ===== src/Users.antt =====
-- The users module (src/modules/users).
pub mod Entities
pub mod Service
