-- ===== src/Fees/Seeds.antt =====
-- The seeded rules of src/modules/fees/fees.service.ts: their loop, and their fees as functions of
-- the amount.
use text.Mathlib.TextPositions.{eq_refl}
use transact_go.Fees.Entities.{FeeRule}
use transact_go.Fees.Rules.{
  RuleTable, has_code, ngn_deposit, ngn_internal, seed_default_rules, seed_rule, seed_rules,
  usd_withdrawal,
}
use transact_go.Fees.Service.{calculate, charge_rule, compute_base_fee, round_mul}
use transact_go.Prelude.{
  All, List, String, [], arith, find, if◌then◌else◌, is_some, leb, max, min, refl, some, true, ℕ,
  ◌*◌, ◌+◌, ◌/◌, ◌∷◌, ◌≡◌,
}
use transact_go.Prelude.Int.{pos, ℤ, ◌+ℤ◌}

HasCode : String → RuleTable → Type 0
HasCode c t = is_some (find (has_code c) t.rules) ≡ true

seed_rule-HasCode :
    (make : ℕ → FeeRule) (t : RuleTable) → HasCode (make t.next_id).rule_code (seed_rule make t)
unfolding HasCode
seed_rule-HasCode make t = ground (arith, eq_refl (make t.next_id).rule_code)

seed_rule-keeps :
    (make : ℕ → FeeRule) (c : String) (t : RuleTable) → HasCode c t → HasCode c (seed_rule make t)
unfolding HasCode
seed_rule-keeps make c t h = ground arith

seed_rules-keeps :
    (ds : List (ℕ → FeeRule)) (c : String) (t : RuleTable)
    → HasCode c t
    → HasCode c (seed_rules ds t)
unfolding seed_rules
seed_rules-keeps [] c t h = h
seed_rules-keeps (d ∷ ds) c t h = seed_rules-keeps ds c (seed_rule d t) (seed_rule-keeps d c t h)

seed_rule-present :
    (make : ℕ → FeeRule) (t : RuleTable)
    → HasCode (make t.next_id).rule_code t
    → seed_rule make t ≡ t
unfolding HasCode
seed_rule-present make t h = rw h

-- A list of seeds that are all in the table adds nothing.
seed_rules-present :
    (ds : List (ℕ → FeeRule)) (t : RuleTable)
    → All (λ d. HasCode (d t.next_id).rule_code t) ds
    → seed_rules ds t ≡ t
unfolding seed_rules
seed_rules-present [] t h = refl
seed_rules-present (d ∷ ds) t h = rw (seed_rule-present d t h.0) (seed_rules-present ds t h.1)

-- Running the seeds a second time, as every start of the server does, changes nothing: whatever
-- rules the table held at first, the second run adds no row.
pub seed_default_rules_twice :
    (t : RuleTable) → seed_default_rules (seed_default_rules t) ≡ seed_default_rules t
unfolding seed_default_rules
seed_default_rules_twice t =
    let t1 : RuleTable = seed_rule ngn_internal t in
    let t2 : RuleTable = seed_rule usd_withdrawal t1 in
    seed_rules-present (ngn_internal ∷ usd_withdrawal ∷ ngn_deposit ∷ []) (seed_default_rules t) (
      seed_rules-keeps (usd_withdrawal ∷ ngn_deposit ∷ []) "NGN_INTERNAL_TRANSFER" t1
          (seed_rule-HasCode ngn_internal t),
      (
        seed_rules-keeps (ngn_deposit ∷ []) "USD_WITHDRAWAL" t2
            (seed_rule-HasCode usd_withdrawal t1),
        (seed_rule-HasCode ngn_deposit t2, tt),
      ),
    )

-- The fee of an internal transfer of `n` kobo, VAT of 7.5% included, by the published tiers.
abbrev pub naira_fee : ℕ → ℤ
naira_fee n = if leb n 500_000 then pos 1075 else if leb n 5_000_000 then pos 2688 else pos 5375

-- The seeded rule charges every amount of naira by that table.
pub calculate-ngn_internal :
    (id n : ℕ)
    → (calculate
        (some (ngn_internal id))
        (record { amount = pos n; currency = "NGN"; transaction_type = "internal" })).total_fee
      ≡ naira_fee n
unfolding calculate charge_rule compute_base_fee round_mul ◌+ℤ◌
calculate-ngn_internal id n = ground arith

-- The seeded withdrawal fee in dollars is 1.5% of the amount, rounded, and from 100 to 5000 cents.
pub calculate-usd_withdrawal :
    (id n : ℕ)
    → (calculate
        (some (usd_withdrawal id))
        (record { amount = pos n; currency = "USD"; transaction_type = "withdrawal" })).total_fee
      ≡ pos (max 100 (min 5000 ((3 * n + 100) / 200)))
unfolding calculate charge_rule compute_base_fee round_mul ◌+ℤ◌
calculate-usd_withdrawal id n = ground arith
