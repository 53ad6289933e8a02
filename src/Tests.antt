-- ===== src/Tests.antt =====
-- Concrete inputs, and the theorems applied to them.
mod Fixtures
mod Wallets
mod Fees
mod Transfers
mod Payments
mod Webhooks
mod Idempotency
mod Kyc
mod Auth
mod Reports
mod Fraud
mod Exchange
mod Admin
mod Tasks
mod Http
