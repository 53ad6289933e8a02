-- ===== src/Admin/Rows.antt =====
-- The rows that requests of src/modules/admin/admin.module.ts make and change: rules for fees and rules
-- against fraud.
use transact_go.Admin.Dto.{
  CreateFeeRuleDto, CreateFraudRuleDto, UpdateFeeRuleDto, UpdateFraudRuleDto,
}
use transact_go.Fees.Entities.{FeeRule}
use transact_go.Fees.Rules.{column_defaults}
use transact_go.Fraud.Entities.{FraudRule}
use transact_go.Prelude.{Option, none, some, true, ℕ}
use transact_go.Prelude.Int.{pos}

-- `value ?? default`, for the fields that a request may leave out.
abbrev pub given_or : {A : Type 0} → Option A → A → A
given_or none d = d
given_or (some a) d = a

-- A nullable column of a request that leaves it out stays as it is.
abbrev pub or_kept : {A : Type 0} → Option A → Option A → Option A
or_kept none old = old
or_kept (some a) old = some a

abbrev pub fee_rule_of : CreateFeeRuleDto → ℕ → FeeRule
fee_rule_of dto id = record (column_defaults id) {
  name = dto.name;
  rule_code = dto.rule_code;
  currency = dto.currency;
  transaction_type = dto.transaction_type;
  fee_type = dto.fee_type;
  flat_amount = given_or dto.flat_amount (pos 0);
  percentage = given_or dto.percentage 0;
  cap = dto.cap;
  floor = dto.floor;
  tier_config = dto.tier_config;
  tax_rate = given_or dto.tax_rate 0;
  is_active = given_or dto.is_active true;
  priority = given_or dto.priority 0;
}

abbrev pub change_fee_rule : UpdateFeeRuleDto → FeeRule → FeeRule
change_fee_rule dto r = record r {
  name = given_or dto.name r.name;
  cap = or_kept dto.cap r.cap;
  percentage = given_or dto.percentage r.percentage;
  flat_amount = given_or dto.flat_amount r.flat_amount;
  tax_rate = given_or dto.tax_rate r.tax_rate;
  is_active = given_or dto.is_active r.is_active;
  tier_config = or_kept dto.tier_config r.tier_config;
}

abbrev pub fraud_rule_of : CreateFraudRuleDto → ℕ → ℕ → FraudRule
fraud_rule_of dto id now = record {
  id = id;
  name = dto.name;
  rule_type = dto.rule_type;
  currency = dto.currency;
  kyc_tier = dto.kyc_tier;
  config = dto.config;
  action = dto.action;
  is_active = given_or dto.is_active true;
  priority = given_or dto.priority 0;
  created_at = now;
}

abbrev pub change_fraud_rule : UpdateFraudRuleDto → FraudRule → FraudRule
change_fraud_rule dto r = record r {
  is_active = given_or dto.is_active r.is_active;
  config = given_or dto.config r.config;
  action = given_or dto.action r.action;
  priority = given_or dto.priority r.priority;
}
