-- ===== src/Fraud/Entities.antt =====
-- src/modules/fraud/entities/fraud.entity.ts and the interfaces of src/modules/fraud/fraud.service.ts.
-- `config` has the fields of every type of rule. A field that is missing is `undefined`, and a
-- comparison with it is false; `windowSeconds`, which no comparison reads, is taken to be there.
-- A number that may have decimals is a `Ratio`, and the quotient of a z-score is exact.
use transact_go.Prelude.{Bool, Option, String, false, true, ℕ}
use transact_go.Prelude.Int.{ℤ}
use transact_go.Ratio.{Ratio}
use transact_go.Users.Entities.{KycTier}

pub data FraudRuleType : Type 0 where
  velocity daily_limit_rule large_amount unusual_pattern blacklist : FraudRuleType

pub data FraudAction : Type 0 where
  block flag notify : FraudAction

abbrev pub is_block : FraudAction → Bool
is_block block = true
is_block _ = false

pub record RuleConfig : Type 0 where
  pub max_count : Option ℕ
  pub window_seconds : ℕ
  pub max_amount : Option ℤ
  pub multiplier : Option Ratio
  pub min_history : Option ℕ
  pub z_score_threshold : Option Ratio

pub record FraudRule : Type 0 where
  pub id : ℕ
  pub name : String
  pub rule_type : FraudRuleType
  pub currency : Option String
  pub kyc_tier : Option ℕ
  pub config : RuleConfig
  pub action : FraudAction
  pub is_active : Bool
  pub priority : ℕ
  pub created_at : ℕ

pub record FraudCheckParams : Type 0 where
  pub user_id : ℕ
  pub amount : ℤ
  pub currency : String
  pub kyc_tier : KycTier
  pub transfer_id : Option ℕ

-- The `context` that each check returns. A z-score is kept as the numbers that it is made of.
pub data CheckContext : Type 0 where
  no_context insufficient_history : CheckContext
  velocity_context : (count : ℕ) (max_count : Option ℕ) (window_seconds : ℕ) → CheckContext
  daily_context : (daily_total projected_total : ℤ) (max_amount : Option ℤ) → CheckContext
  large_context : (amount avg : ℤ) (multiplier : Option Ratio) (history_count : ℕ) → CheckContext
  unusual_context :
      (deviation : ℤ) (z_score_threshold : Option Ratio) (mean stddev : ℤ) → CheckContext

pub record RuleCheckResult : Type 0 where
  pub triggered : Bool
  pub rule_name : String
  pub action : FraudAction
  pub context : CheckContext

pub record FraudAlert : Type 0 where
  pub id : ℕ
  pub user_id : ℕ
  pub transfer_id : Option ℕ
  pub rule_triggered : String
  pub action_taken : FraudAction
  pub context : CheckContext
  pub amount : ℤ
  pub currency : String
  pub reviewed : Bool
  pub reviewed_by : Option String
  pub review_notes : Option String
  pub created_at : ℕ
