-- ===== src/Http.antt =====
-- Requests on their way in and errors on their way out (src/common, and the controllers).
pub mod UniqueDetail
pub mod Filter
pub mod Transfers
pub mod Runs
pub mod Retries
pub mod Moves
pub mod Routes
