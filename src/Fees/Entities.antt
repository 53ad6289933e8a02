-- ===== src/Fees/Entities.antt =====
-- src/modules/fees/entities/fee-rule.entity.ts. Money is in the smallest unit of the currency. The
-- decimal columns are scaled integers: `percentage` (scale 6) counts millionths and `taxRate`
-- (scale 4) counts ten-thousandths. `createdAt` and `updatedAt` are not read and left out.
use transact_go.Prelude.{Bool, List, Option, String, ℕ}
use transact_go.Prelude.Int.{ℤ}

pub data FeeType : Type 0 where
  flat percentage tiered : FeeType

pub record Tier : Type 0 where
  pub min_amount : ℤ
  pub max_amount : Option ℤ
  pub flat_fee : ℤ

pub record FeeRule : Type 0 where
  pub id : ℕ
  pub name : String
  pub rule_code : String
  pub currency : String
  pub transaction_type : String
  pub fee_type : FeeType
  pub flat_amount : ℤ
  pub percentage : ℕ
  pub cap : Option ℤ
  pub floor : Option ℤ
  pub tier_config : Option (List Tier)
  pub tax_rate : ℕ
  pub min_transfer_amount : ℤ
  pub max_transfer_amount : Option ℤ
  pub is_active : Bool
  pub priority : ℕ
