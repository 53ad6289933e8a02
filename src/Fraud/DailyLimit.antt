-- ===== src/Fraud/DailyLimit.antt =====
-- The rules of src/modules/fraud/fraud.service.ts that block by the total of a day.
use transact_go.Cache.{Cache}
use transact_go.Fraud.Alerts.{Reads, get_active_rules-Reads, result_blocks, rules_for}
use transact_go.Fraud.Checks.{
  above, check_daily_limit, check_large_amount, check_rule, check_type, check_unusual_pattern,
  check_velocity, day_total,
}
use transact_go.Fraud.Entities.{
  FraudCheckParams, FraudRule, FraudRuleType, blacklist, daily_limit_rule, is_block, large_amount,
  unusual_pattern, velocity,
}
use transact_go.Fraud.Frame.{Keeps, check_rule-Keeps}
use transact_go.Fraud.Service.{
  Store, apply_rules, check_rules, evaluate_rules, get_active_rules, verdict,
}
use transact_go.Fraud.State.{CounterKey, RulesKey, Sql}
use transact_go.Outcome.{Result, err, forbidden, fraud_blocked, ok, resume}
use transact_go.Prelude.{
  Bool, Bool-cases, List, [], arith, false, find, inl, inr, is_some, refl, true, ℕ, ◌&&◌, ◌∙◌, ◌∷◌,
  ◌≡◌,
}
use transact_go.Prelude.Int.{◌+ℤ◌}
use transact_go.Transfers.Entities.{Transfer}
use transact_go.Users.Entities.{level}

module _ (sql : Sql) (start_of_day : ℕ → ℕ) (R : Cache RulesKey (List FraudRule))
    (C : Cache CounterKey ℕ) where
  abbrev is_daily : FraudRuleType → Bool
  is_daily daily_limit_rule = true
  is_daily _ = false

  -- The rule blocks, and with this amount the user's transfers of today in this currency that are
  -- completed or in progress come to more than its maximum.
  abbrev pub breaks_daily_limit : FraudCheckParams → ℕ → List Transfer → FraudRule → Bool
  breaks_daily_limit params now transfers r =
      is_block r.action
      && (is_daily r.rule_type
          && above (day_total params (start_of_day now) transfers +ℤ params.amount)
              r.config.max_amount)

  check_type-breaks :
      (kind : FraudRuleType) (r : FraudRule) (params : FraudCheckParams)
      (db : Store sql start_of_day R C)
      → (is_daily kind
          && above
              (day_total params (start_of_day db.now) db.transfers +ℤ params.amount)
              r.config.max_amount)
        ≡ true
      → (check_type sql start_of_day R.State C kind r params db).0.triggered ≡ true
  unfolding check_daily_limit
  check_type-breaks velocity r params db e = cc e
  check_type-breaks daily_limit_rule r params db e = e
  check_type-breaks large_amount r params db e = cc e
  check_type-breaks unusual_pattern r params db e = cc e
  check_type-breaks blacklist r params db e = cc e

  check_type-action :
      (kind : FraudRuleType) (r : FraudRule) (params : FraudCheckParams)
      (db : Store sql start_of_day R C)
      → (check_type sql start_of_day R.State C kind r params db).0.action ≡ r.action
  unfolding check_velocity check_daily_limit check_large_amount check_unusual_pattern
  check_type-action velocity r params db = refl
  check_type-action daily_limit_rule r params db = refl
  check_type-action large_amount r params db = ground arith
  check_type-action unusual_pattern r params db = ground arith
  check_type-action blacklist r params db = refl

  check_rule-breaks :
      (r : FraudRule) (params : FraudCheckParams) (db : Store sql start_of_day R C)
      → breaks_daily_limit params db.now db.transfers r ≡ true
      → ((check_rule sql start_of_day R.State C r params db).0.triggered ≡ true)
        × (is_block (check_rule sql start_of_day R.State C r params db).0.action ≡ true)
  unfolding check_rule
  check_rule-breaks r params db e = (
    check_type-breaks r.rule_type r params db (ground arith),
    rw (check_type-action r.rule_type r params db) (ground arith),
  )

  check_rules-breaks :
      (rules : List FraudRule) (params : FraudCheckParams) (now : ℕ) (transfers : List Transfer)
      (db : Store sql start_of_day R C)
      → db.now ≡ now
      → db.transfers ≡ transfers
      → is_some (find (breaks_daily_limit params now transfers) rules) ≡ true
      → result_blocks sql start_of_day R C (check_rules sql start_of_day R C rules params db).0
        ≡ true
  unfolding check_rules
  check_rules-breaks [] params now transfers db time same e = cc e
  check_rules-breaks (r ∷ rules) params now transfers db time same e =
      let after : Store sql start_of_day R C =
        (check_rule sql start_of_day R.State C r params db).1 in
      let kept : Keeps sql start_of_day R.State C db after =
        check_rule-Keeps sql start_of_day R.State C r params db in
      elim (Bool-cases (breaks_daily_limit params now transfers r)) [
        | inl breaks ↦
            let breaks' : breaks_daily_limit params db.now db.transfers r ≡ true =
              rw (time, same) breaks in
            let (fires, blocks) = check_rule-breaks r params db breaks' in rw (fires, blocks) refl
        | inr fine ↦
            let rest : result_blocks sql start_of_day R C
                  (check_rules sql start_of_day R C rules params after).0
                ≡ true =
              check_rules-breaks rules params now transfers after (kept.time_kept ∙ time)
                (kept.transfers_kept ∙ same) (rw fine at e) in
            ground (arith, rest)
      ]

  -- What an evaluation that is not blocked says of the rules that it has read.
  after_rules :
      (params : FraudCheckParams) (rules : List FraudRule) (db : Store sql start_of_day R C)
      (x : Result (List FraudRule) × Store sql start_of_day R C)
      → Reads sql start_of_day R C db rules x
      → (resume (apply_rules sql start_of_day R C params) x).0 ≡ ok tt
      → is_some (find (breaks_daily_limit params db.now db.transfers) rules) ≡ false
  after_rules params rules db (err e, db') (read, kept) passed = cc passed
  after_rules params rules db (ok found, db') (inl out, kept) passed = cc out
  after_rules params rules db (ok found, db') (inr read, kept) passed =
      elim (Bool-cases (is_some (find (breaks_daily_limit params db.now db.transfers) rules))) [
        | inr fine ↦ fine
        | inl breaks ↦
            let same : found ≡ rules = cc read in
            let broken : is_some (find (breaks_daily_limit params db.now db.transfers) found)
                ≡ true =
              rw same breaks in
            let blocks : result_blocks sql start_of_day R C
                  (check_rules sql start_of_day R C found params db').0
                ≡ true =
              check_rules-breaks found params db.now db.transfers db' kept.time_kept
                kept.transfers_kept broken in
            let refused : verdict sql start_of_day R C
                  (check_rules sql start_of_day R C found params db').0
                ≡ err (forbidden fraud_blocked) =
              rw blocks refl in
            cc (passed, refused)
      ]

  -- Where an evaluation lets a transaction pass: none of the rules that it went by blocks by the total
  -- of a day with a maximum below what the user has sent today together with the amount.
  pub evaluate_rules-daily_limit :
      (params : FraudCheckParams) (db : Store sql start_of_day R C)
      → (evaluate_rules sql start_of_day R C params db).0 ≡ ok tt
      → is_some (
          find
            (breaks_daily_limit params db.now db.transfers)
            (rules_for sql start_of_day R C (params.currency, level params.kyc_tier) db))
        ≡ false
  unfolding evaluate_rules
  evaluate_rules-daily_limit params db passed =
      after_rules params
        (rules_for sql start_of_day R C (params.currency, level params.kyc_tier) db) db
        (get_active_rules sql start_of_day R C params.currency (level params.kyc_tier) db)
        (get_active_rules-Reads sql start_of_day R C params.currency (level params.kyc_tier) db)
        passed
