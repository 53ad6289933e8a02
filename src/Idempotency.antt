-- ===== src/Idempotency.antt =====
-- Requests that may be repeated (src/common/interceptors/idempotency.interceptor.ts).
pub mod Interceptor
pub mod Replay
pub mod Once
pub mod Cases
