-- ===== src/Fees/Service.antt =====
-- src/modules/fees/fees.service.ts: `calculate` and its helpers, for the rule that `getActiveRule`
-- found (see Fees/Rules.antt). Products with a decimal rate are exact before they are rounded.
use transact_go.Fees.Entities.{FeeRule, FeeType, Tier, flat, tiered}
use transact_go.Prelude.{
  Bool, List, Option, String, [], false, find, if◌then◌else◌, ltb, none, some, suc, true, ℕ, ◌&&◌,
  ◌*◌, ◌+◌, ◌-◌, ◌/◌, ◌∷◌,
}
use transact_go.Prelude.Int.{eqb_ℤ, leb_ℤ, ltb_ℤ, negsuc, pos, ℤ, ◌+ℤ◌, ◌-ℤ◌}

pub record FeeCalculationParams : Type 0 where
  pub amount : ℤ
  pub currency : String
  pub transaction_type : String

-- The label of a line: the name of the rule, or `VAT (…%)` for a tax rate.
pub data Label : Type 0 where
  rule_label : String → Label
  vat_label : ℕ → Label

pub record LineItem : Type 0 where
  pub label : Label
  pub amount : ℤ

pub record FeeBreakdown : Type 0 where
  pub base_fee : ℤ
  pub tax : ℤ
  pub total_fee : ℤ
  pub currency : String
  pub rule_id : Option ℕ
  pub rule_name : Option String
  pub line_items : List LineItem

-- `Math.round(n * rate)` for a rate of `rate / scale`: halves go up.
unfoldable pub round_mul : ℕ → ℤ → ℕ → ℤ
round_mul scale (pos n) rate = pos ((2 * (n * rate) + scale) / (2 * scale))
round_mul scale (negsuc n) rate = pos 0 -ℤ pos ((2 * (suc n * rate) + (scale - 1)) / (2 * scale))

abbrev pub percentage_scale : ℕ
percentage_scale = 1_000_000

abbrev pub tax_scale : ℕ
tax_scale = 10_000

-- The test of the `find` over the tiers.
abbrev pub in_tier : ℤ → Tier → Bool
in_tier amount tier =
    leb_ℤ tier.min_amount amount && (elim tier.max_amount [ none ↦ true | some m ↦ leb_ℤ amount m ])

abbrev pub tier_fee : ℤ → Option Tier → ℤ
tier_fee fallback none = fallback
tier_fee fallback (some tier) = tier.flat_fee

abbrev pub tiers_fee : ℤ → ℤ → Option (List Tier) → ℤ
tiers_fee fallback amount none = fallback
tiers_fee fallback amount (some []) = fallback
tiers_fee fallback amount (some (t ∷ ts)) = tier_fee fallback (find (in_tier amount) (t ∷ ts))

abbrev pub base_fee_for : FeeType → FeeRule → ℤ → ℤ
base_fee_for flat rule amount = rule.flat_amount
base_fee_for FeeType.percentage rule amount = round_mul percentage_scale amount rule.percentage
base_fee_for tiered rule amount = tiers_fee rule.flat_amount amount rule.tier_config

unfoldable pub compute_base_fee : FeeRule → ℤ → ℤ
compute_base_fee rule amount = base_fee_for rule.fee_type rule amount

unfoldable pub build_zero_fee : String → FeeBreakdown
build_zero_fee currency = record {
  base_fee = pos 0;
  tax = pos 0;
  total_fee = pos 0;
  currency = currency;
  rule_id = none;
  rule_name = none;
  line_items = [];
}

-- `rule.floor !== null && baseFee < rule.floor`
abbrev pub raise_to : Option ℤ → ℤ → ℤ
raise_to none x = x
raise_to (some low) x = if ltb_ℤ x low then low else x

-- `rule.cap !== null && baseFee > rule.cap`
abbrev pub cut_to : Option ℤ → ℤ → ℤ
cut_to none x = x
cut_to (some high) x = if ltb_ℤ high x then high else x

-- `rule.maxTransferAmount && params.amount > rule.maxTransferAmount`: 0 is no maximum.
abbrev pub above_max : Option ℤ → ℤ → Bool
above_max none amount = false
above_max (some m) amount = if eqb_ℤ m (pos 0) then false else ltb_ℤ m amount

unfoldable pub charge_rule : FeeRule → FeeCalculationParams → FeeBreakdown
charge_rule rule params =
    let base_fee : ℤ =
      cut_to rule.cap (raise_to rule.floor (compute_base_fee rule params.amount)) in
    let tax : ℤ =
      if ltb 0 rule.tax_rate then round_mul tax_scale base_fee rule.tax_rate else pos 0 in
    record {
      base_fee = base_fee;
      tax = tax;
      total_fee = base_fee +ℤ tax;
      currency = params.currency;
      rule_id = some rule.id;
      rule_name = some rule.name;
      line_items =
          record { label = rule_label rule.name; amount = base_fee }
          ∷ (if ltb_ℤ (pos 0) tax
              then record { label = vat_label rule.tax_rate; amount = tax } ∷ []
              else []);
    }

unfoldable pub calculate : Option FeeRule → FeeCalculationParams → FeeBreakdown
calculate none params = build_zero_fee params.currency
calculate (some rule) params =
    if ltb_ℤ params.amount rule.min_transfer_amount
    then build_zero_fee params.currency
    else if above_max rule.max_transfer_amount params.amount
    then build_zero_fee params.currency
    else charge_rule rule params
