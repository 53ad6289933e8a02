-- ===== src/Transfers/Entities.antt =====
-- src/modules/transfers/entities/transfer.entity.ts. Times are milliseconds. The JSON columns that
-- no code reads back, `providerResponse` and `recipientDetails`, are left out, and `updatedAt`.
use transact_go.Fees.Service.{FeeBreakdown}
use transact_go.Prelude.{Bool, Option, String, false, true, ℕ}
use transact_go.Prelude.Int.{ℤ}

pub data TransferType : Type 0 where
  internal_transfer_type deposit_type withdrawal_type : TransferType

pub data TransferStatus : Type 0 where
  pending processing completed failed reversed cancelled : TransferStatus

pub record Transfer : Type 0 where
  pub id : ℕ
  pub user_id : ℕ
  pub type : TransferType
  pub status : TransferStatus
  pub currency : String
  pub amount : ℤ
  pub fee : ℤ
  pub tax : ℤ
  pub fee_breakdown : Option FeeBreakdown
  pub source_wallet_id : Option ℕ
  pub destination_wallet_id : Option ℕ
  pub provider : Option String
  pub provider_reference : Option String
  pub reference : Option String
  pub narration : Option String
  pub failure_reason : Option String
  pub attempts : ℕ
  pub completed_at : Option ℕ
  pub created_at : ℕ

abbrev pub is_pending : TransferStatus → Bool
is_pending pending = true
is_pending _ = false

abbrev pub is_processing : TransferStatus → Bool
is_processing processing = true
is_processing _ = false

-- `status IN ('completed', 'processing')`
abbrev pub counts_today : TransferStatus → Bool
counts_today completed = true
counts_today processing = true
counts_today _ = false

-- `status === COMPLETED || status === FAILED`
abbrev pub is_terminal : TransferStatus → Bool
is_terminal completed = true
is_terminal failed = true
is_terminal _ = false

abbrev pub is_deposit : TransferType → Bool
is_deposit deposit_type = true
is_deposit _ = false
