-- ===== src/Admin/Dto.antt =====
-- src/modules/admin/dto/admin.dto.ts. Decimal fields are scaled as the columns that they are saved in
-- (see Fees/Entities.antt). A nullable filter of a rule that is left out and one that is null are
-- both `none`.
use transact_go.Fees.Entities.{FeeType, Tier}
use transact_go.Fraud.Entities.{FraudAction, FraudRuleType, RuleConfig}
use transact_go.Prelude.{Bool, List, Option, String, ℕ}
use transact_go.Prelude.Int.{ℤ}
use transact_go.Users.Entities.{KycTier}

pub record SuspendUserDto : Type 0 where
  pub reason : String

pub record OverrideKycTierDto : Type 0 where
  pub tier : KycTier
  pub reason : String

pub record FreezeWalletDto : Type 0 where
  pub reason : String

pub record CreateFeeRuleDto : Type 0 where
  pub name : String
  pub rule_code : String
  pub currency : String
  pub transaction_type : String
  pub fee_type : FeeType
  pub flat_amount : Option ℤ
  pub percentage : Option ℕ
  pub cap : Option ℤ
  pub floor : Option ℤ
  pub tier_config : Option (List Tier)
  pub tax_rate : Option ℕ
  pub is_active : Option Bool
  pub priority : Option ℕ

pub record UpdateFeeRuleDto : Type 0 where
  pub name : Option String
  pub cap : Option ℤ
  pub percentage : Option ℕ
  pub flat_amount : Option ℤ
  pub tax_rate : Option ℕ
  pub is_active : Option Bool
  pub tier_config : Option (List Tier)

pub record CreateFraudRuleDto : Type 0 where
  pub name : String
  pub rule_type : FraudRuleType
  pub currency : Option String
  pub kyc_tier : Option ℕ
  pub config : RuleConfig
  pub action : FraudAction
  pub is_active : Option Bool
  pub priority : Option ℕ

pub record UpdateFraudRuleDto : Type 0 where
  pub is_active : Option Bool
  pub config : Option RuleConfig
  pub action : Option FraudAction
  pub priority : Option ℕ

pub record ReviewFraudAlertDto : Type 0 where
  pub notes : String

-- What the handlers write into the audit trail.
pub data AdminMetadata : Type 0 where
  suspend_metadata : (reason : String) → AdminMetadata
  activate_metadata : AdminMetadata
  tier_metadata : (tier : KycTier) (reason : String) → AdminMetadata
  freeze_metadata : (reason : String) → AdminMetadata
  create_rule_metadata : (rule : CreateFeeRuleDto) → AdminMetadata
  update_rule_metadata : (changes : UpdateFeeRuleDto) → AdminMetadata
