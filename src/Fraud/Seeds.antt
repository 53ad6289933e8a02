-- ===== src/Fraud/Seeds.antt =====
-- The seeded rules of src/modules/fraud/fraud.service.ts: their loop, run again at every start.
use text.Mathlib.TextPositions.{eq_refl}
use transact_go.Fraud.Entities.{FraudRule}
use transact_go.Fraud.Service.{
  high_velocity, large_single_transfer, seed_default_fraud_rules, seed_fraud_rule,
  unusual_pattern_detection,
}
use transact_go.Fraud.State.{FraudDb}
use transact_go.Prelude.{String, ap, arith, find, is_some, refl, str_eq, true, ℕ, ◌∙◌, ◌≡◌}

module _ {R C : Type 0} where
  HasName : String → FraudDb R C → Type 0
  HasName n db = is_some (find (λ r. str_eq r.name n) db.rules) ≡ true

  seed_fraud_rule-HasName :
      (make : ℕ → ℕ → FraudRule) (db : FraudDb R C)
      → HasName (make db.next_id db.now).name (seed_fraud_rule make db)
  unfolding HasName
  seed_fraud_rule-HasName make db = ground (arith, eq_refl (make db.next_id db.now).name)

  seed_fraud_rule_keeps :
      (make : ℕ → ℕ → FraudRule) (n : String) (db : FraudDb R C)
      → HasName n db
      → HasName n (seed_fraud_rule make db)
  unfolding HasName
  seed_fraud_rule_keeps make n db h = ground arith

  seed_fraud_rule_present :
      (make : ℕ → ℕ → FraudRule) (db : FraudDb R C)
      → HasName (make db.next_id db.now).name db
      → seed_fraud_rule make db ≡ db
  unfolding HasName
  seed_fraud_rule_present make db h = rw h refl

  -- Running the seeds a second time changes nothing, whatever rules the table held at first.
  pub seed_default_fraud_rules_twice :
      (db : FraudDb R C)
      → seed_default_fraud_rules (seed_default_fraud_rules db) ≡ seed_default_fraud_rules db
  unfolding seed_default_fraud_rules
  seed_default_fraud_rules_twice db =
      let d1 : FraudDb R C = seed_fraud_rule high_velocity db in
      let d2 : FraudDb R C = seed_fraud_rule large_single_transfer d1 in
      let d3 : FraudDb R C = seed_fraud_rule unusual_pattern_detection d2 in
      let first : HasName "High Velocity — NGN" d3 =
        seed_fraud_rule_keeps unusual_pattern_detection "High Velocity — NGN" d2 (
          seed_fraud_rule_keeps large_single_transfer "High Velocity — NGN" d1
            (seed_fraud_rule-HasName high_velocity db)) in
      let second : HasName "Large Single Transfer — NGN" d3 =
        seed_fraud_rule_keeps unusual_pattern_detection "Large Single Transfer — NGN" d2
          (seed_fraud_rule-HasName large_single_transfer d1) in
      let third : HasName "Unusual Pattern Detection" d3 =
        seed_fraud_rule-HasName unusual_pattern_detection d2 in
      ap (λ d. seed_fraud_rule unusual_pattern_detection (seed_fraud_rule large_single_transfer d))
        (seed_fraud_rule_present high_velocity d3 first)
      ∙ ap (seed_fraud_rule unusual_pattern_detection)
          (seed_fraud_rule_present large_single_transfer d3 second)
      ∙ seed_fraud_rule_present unusual_pattern_detection d3 third
