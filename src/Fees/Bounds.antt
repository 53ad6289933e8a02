-- ===== src/Fees/Bounds.antt =====
-- The bounds of a fee of src/modules/fees/fees.service.ts, for rules within the limits of the
-- admin form.
use transact_go.Fees.Entities.{FeeRule, FeeType, Tier, flat, tiered}
use transact_go.Fees.Service.{
  FeeBreakdown, FeeCalculationParams, Label, LineItem, above_max, base_fee_for, build_zero_fee,
  calculate, charge_rule, compute_base_fee, cut_to, in_tier, percentage_scale, raise_to, round_mul,
  rule_label, tax_scale, tier_fee, tiers_fee, vat_label,
}
use transact_go.Prelude.{
  All, Bool-cases, List, Option, [], arith, find, if◌then◌else◌, inl, inr, ltb, none, refl, some, ℕ,
  ◌*◌, ◌+◌, ◌<◌, ◌∷◌, ◌≡◌, ◌≤◌,
}
use transact_go.Prelude.Int.{
  eq_of_parts, int_laws, ltb_ℤ, negsuc, not_below, pos, pos_part, ℤ, ◌+ℤ◌, ◌≤ℤ◌,
}
use transact_go.Prelude.Rows.{sum_by}

-- What the validation of `CreateFeeRuleDto` and the column defaults ensure of a rule.
pub record IsSane (r : FeeRule) : Type 0 where
  pub flat_nonneg : pos 0 ≤ℤ r.flat_amount
  pub min_nonneg : pos 0 ≤ℤ r.min_transfer_amount
  pub cap_nonneg : (c : ℤ) → r.cap ≡ some c → pos 0 ≤ℤ c
  pub tiers_nonneg : (ts : List Tier) → r.tier_config ≡ some ts → All (λ t. pos 0 ≤ℤ t.flat_fee) ts

-- A product with a rate is rounded to the nearest integer, halves up.
round_mul_nearest :
    (scale n rate : ℕ)
    → 0 < scale
    → (2 * scale * pos_part (round_mul scale (pos n) rate) ≤ 2 * (n * rate) + scale)
      × (2 * (n * rate) + scale < 2 * scale * pos_part (round_mul scale (pos n) rate) + 2 * scale)
unfolding round_mul
round_mul_nearest scale n rate h = (grind arith, grind arith)

pub round_mul_nonneg : (scale : ℕ) (x : ℤ) (rate : ℕ) → pos 0 ≤ℤ x → pos 0 ≤ℤ round_mul scale x rate
unfolding round_mul
round_mul_nonneg scale (pos n) rate h = omega arith
round_mul_nonneg scale (negsuc n) rate h = absurd (omega arith)

tier_found_nonneg :
    (amount fallback : ℤ) (ts : List Tier)
    → pos 0 ≤ℤ fallback
    → All (λ t. pos 0 ≤ℤ t.flat_fee) ts
    → pos 0 ≤ℤ tier_fee fallback (find (in_tier amount) ts)
tier_found_nonneg amount fallback [] f h = f
tier_found_nonneg amount fallback (t ∷ ts) f h = elim (Bool-cases (in_tier amount t)) [
  | inl here ↦ rw here h.0
  | inr later ↦ rw later (tier_found_nonneg amount fallback ts f h.1)
]

tiers_fee_nonneg :
    (fallback amount : ℤ) (o : Option (List Tier))
    → pos 0 ≤ℤ fallback
    → ((ts : List Tier) → o ≡ some ts → All (λ t. pos 0 ≤ℤ t.flat_fee) ts)
    → pos 0 ≤ℤ tiers_fee fallback amount o
tiers_fee_nonneg fallback amount none f h = f
tiers_fee_nonneg fallback amount (some []) f h = f
tiers_fee_nonneg fallback amount (some (t ∷ ts)) f h =
    tier_found_nonneg amount fallback (t ∷ ts) f (h (t ∷ ts) refl)

base_fee_for_nonneg :
    (k : FeeType) (r : FeeRule) (amount : ℤ)
    → IsSane r
    → pos 0 ≤ℤ amount
    → pos 0 ≤ℤ base_fee_for k r amount
base_fee_for_nonneg flat r amount s h = s.flat_nonneg
base_fee_for_nonneg FeeType.percentage r amount s h =
    round_mul_nonneg percentage_scale amount r.percentage h
base_fee_for_nonneg tiered r amount s h =
    tiers_fee_nonneg r.flat_amount amount r.tier_config s.flat_nonneg s.tiers_nonneg

pub base_nonneg :
    (r : FeeRule) (amount : ℤ) → IsSane r → pos 0 ≤ℤ amount → pos 0 ≤ℤ compute_base_fee r amount
unfolding compute_base_fee
base_nonneg r amount s h = base_fee_for_nonneg r.fee_type r amount s h

raise_to_nonneg : (o : Option ℤ) (x : ℤ) → pos 0 ≤ℤ x → pos 0 ≤ℤ raise_to o x
raise_to_nonneg none x h = h
raise_to_nonneg (some low) x h = ground arith

cut_to_nonneg :
    (o : Option ℤ) (x : ℤ) → ((c : ℤ) → o ≡ some c → pos 0 ≤ℤ c) → pos 0 ≤ℤ x → pos 0 ≤ℤ cut_to o x
cut_to_nonneg none x c h = h
cut_to_nonneg (some high) x c h = ground (arith, c high refl)

-- What a rule charges for an amount that is not negative.
pub record IsBounded (r : FeeRule) (f : FeeBreakdown) : Type 0 where
  pub base_nonneg : pos 0 ≤ℤ f.base_fee
  pub tax_nonneg : pos 0 ≤ℤ f.tax
  pub total : f.total_fee ≡ f.base_fee +ℤ f.tax
  pub lines : sum_by LineItem.amount f.line_items ≡ f.total_fee
  pub capped : (c : ℤ) → r.cap ≡ some c → f.base_fee ≤ℤ c
  pub floored :
      (low : ℤ) → r.floor ≡ some low → ((c : ℤ) → r.cap ≡ some c → low ≤ℤ c) → low ≤ℤ f.base_fee

tax_of : ℤ → ℕ → ℤ
tax_of base rate = if ltb 0 rate then round_mul tax_scale base rate else pos 0

tax_of_nonneg : (base : ℤ) (rate : ℕ) → pos 0 ≤ℤ base → pos 0 ≤ℤ tax_of base rate
unfolding tax_of
tax_of_nonneg base rate h = elim (Bool-cases (ltb 0 rate)) [
  | inl taxed ↦ rw taxed (round_mul_nonneg tax_scale base rate h)
  | inr free ↦ rw free (omega arith)
]

cut_to-le : (o : Option ℤ) (x c : ℤ) → o ≡ some c → cut_to o x ≤ℤ c
cut_to-le none x c e = cc
cut_to-le (some high) x c e = ground arith

raise_to-ge : (o : Option ℤ) (x low : ℤ) → o ≡ some low → low ≤ℤ raise_to o x
raise_to-ge none x low e = cc
raise_to-ge (some l) x low e = ground arith

cut_to-ge :
    (o : Option ℤ) (x low : ℤ) → ((c : ℤ) → o ≡ some c → low ≤ℤ c) → low ≤ℤ x → low ≤ℤ cut_to o x
cut_to-ge none x low room h = h
cut_to-ge (some high) x low room h = ground (arith, room high refl)

lines_sum :
    (base vat : ℤ) (l m : Label)
    → pos 0 ≤ℤ vat
    → sum_by LineItem.amount (
        record { label = l; amount = base }
        ∷ (if ltb_ℤ (pos 0) vat then record { label = m; amount = vat } ∷ [] else []))
      ≡ base +ℤ vat
lines_sum base vat l m h = elim (Bool-cases (ltb_ℤ (pos 0) vat)) [
  | inl taxed ↦ rw taxed (omega int_laws)
  | inr free ↦
      let zero_tax : vat ≡ pos 0 = eq_of_parts vat (pos 0) (ground arith) in
      rw (free, zero_tax) refl
]

-- A sane rule charges an amount that is not negative a fee that is not negative, whose total is the
-- base fee and the tax and the sum of its lines, and whose base fee is at most the cap, if there is
-- one, and at least the floor, if there is one that is not above the cap.
pub charge_rule-IsBounded :
    (r : FeeRule) (p : FeeCalculationParams)
    → IsSane r
    → pos 0 ≤ℤ p.amount
    → IsBounded r (charge_rule r p)
unfolding charge_rule tax_of
charge_rule-IsBounded r p s h =
    let raw : ℤ = compute_base_fee r p.amount in
    let base : ℤ = cut_to r.cap (raise_to r.floor raw) in
    let nonneg : pos 0 ≤ℤ base =
      cut_to_nonneg r.cap (raise_to r.floor raw) s.cap_nonneg
        (raise_to_nonneg r.floor raw (base_nonneg r p.amount s h)) in
    let tax_fact : pos 0 ≤ℤ tax_of base r.tax_rate = tax_of_nonneg base r.tax_rate nonneg in
    record {
      base_nonneg = nonneg;
      tax_nonneg = tax_fact;
      total = refl;
      lines =
          lines_sum base (tax_of base r.tax_rate) (rule_label r.name) (vat_label r.tax_rate)
            tax_fact;
      capped = λ c e. cut_to-le r.cap (raise_to r.floor raw) c e;
      floored = λ low e room.
          cut_to-ge r.cap (raise_to r.floor raw) low room (raise_to-ge r.floor raw low e);
    }

-- Whatever sane rule is found, or none, and whatever the amount, even a negative one, the fee is
-- not negative, is the base fee and the tax, and is the sum of the lines that are shown for it.
pub calculate_total :
    (o : Option FeeRule) (p : FeeCalculationParams)
    → ((r : FeeRule) → o ≡ some r → IsSane r)
    → let f = calculate o p in
      (pos 0 ≤ℤ f.base_fee)
      × (pos 0 ≤ℤ f.tax)
      × (f.total_fee ≡ f.base_fee +ℤ f.tax)
      × (sum_by LineItem.amount f.line_items ≡ f.total_fee)
unfolding calculate build_zero_fee ◌+ℤ◌
calculate_total none p s = (omega arith, omega arith, refl, refl)
calculate_total (some r) p s = elim (Bool-cases (ltb_ℤ p.amount r.min_transfer_amount)) [
  | inl below ↦ rw below (omega arith, omega arith, refl, refl)
  | inr enough ↦ elim (Bool-cases (above_max r.max_transfer_amount p.amount)) [
    | inl above ↦ rw (enough, above) (omega arith, omega arith, refl, refl)
    | inr within ↦
        let sane : IsSane r = s r refl in
        let b : IsBounded r (charge_rule r p) =
          charge_rule-IsBounded r p sane
            (omega (arith, sane.min_nonneg, not_below p.amount r.min_transfer_amount enough)) in
        rw (enough, within) (b.base_nonneg, b.tax_nonneg, b.total, b.lines)
  ]
]
