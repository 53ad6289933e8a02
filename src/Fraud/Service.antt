-- ===== src/Fraud/Service.antt =====
-- `evaluate`, `getActiveRules`, `getUserAlerts` and `seedDefaultRules` of
-- src/modules/fraud/fraud.service.ts.
use transact_go.Cache.{Cache}
use transact_go.Fraud.Checks.{check_rule}
use transact_go.Fraud.Entities.{
  FraudAlert, FraudCheckParams, FraudRule, RuleCheckResult, RuleConfig, block, flag, is_block,
  large_amount, unusual_pattern, velocity,
}
use transact_go.Fraud.State.{CounterKey, FraudDb, RulesKey, Sql, cache_call}
use transact_go.Outcome.{
  Exec, Result, err, forbidden, fraud_blocked, gets, modify, ok, pure, ◌>>=◌, ◌>>◌,
}
use transact_go.Prelude.{
  Bool, List, Option, String, [], false, find, if◌then◌else◌, is_some, none, select, some, str_eq,
  true, ℕ, ◌&&◌, ◌+◌, ◌==◌, ◌∷◌,
}
use transact_go.Prelude.Paging.{Page, page_of}
use transact_go.Users.Entities.{level}

-- The `where` of `getActiveRules`.
abbrev pub matches_rule : RulesKey → FraudRule → Bool
matches_rule (currency, tier) r =
    r.is_active
    && ((elim r.currency [ none ↦ true | some c ↦ str_eq c currency ])
        && (elim r.kyc_tier [ none ↦ true | some k ↦ k == tier ]))

abbrev pub alert_of : FraudCheckParams → RuleCheckResult → ℕ → ℕ → FraudAlert
alert_of params r id now = record {
  id = id;
  user_id = params.user_id;
  transfer_id = params.transfer_id;
  rule_triggered = r.rule_name;
  action_taken = r.action;
  context = r.context;
  amount = params.amount;
  currency = params.currency;
  reviewed = false;
  reviewed_by = none;
  review_notes = none;
  created_at = now;
}

module _ (sql : Sql) (start_of_day : ℕ → ℕ) (R : Cache RulesKey (List FraudRule))
    (C : Cache CounterKey ℕ) where
  abbrev pub Store : Type 0
  Store = FraudDb R.State C.State

  abbrev pub query_done : RulesKey → List FraudRule → Exec Store (List FraudRule)
  query_done key rules = do
    modify (λ db. record db { cached_rules = R.set key rules 120_000 db.cached_rules })
    pure rules

  abbrev pub rules_or_query : RulesKey → Option (List FraudRule) → Exec Store (List FraudRule)
  rules_or_query key (some cached) = pure cached
  rules_or_query key none = do
    rules ← gets (λ db. sql.by_priority (select (matches_rule key) db.rules))
    cache_call
    query_done key rules

  abbrev pub cached_rules_first : RulesKey → Exec Store (List FraudRule)
  cached_rules_first key = do
    cached ← gets (λ db. R.get key db.cached_rules)
    rules_or_query key cached

  unfoldable pub get_active_rules : String → ℕ → Exec Store (List FraudRule)
  unfolding cache_call
  get_active_rules currency kyc_tier = do cache_call; cached_rules_first (currency, kyc_tier)

  -- The loop over the rules: what is triggered, in their order.
  unfoldable pub check_rules :
      List FraudRule → FraudCheckParams → Store → List RuleCheckResult × Store
  unfolding check_rule
  check_rules [] params db = ([], db)
  check_rules (rule ∷ rules) params db =
      let (result, db') = check_rule sql start_of_day R.State C rule params db in
      let (results, db'') = check_rules rules params db' in
      (if result.triggered then result ∷ results else results, db'')

  abbrev pub save_alerts : FraudCheckParams → List RuleCheckResult → Store → Store
  save_alerts params [] db = db
  save_alerts params (r ∷ rs) db = save_alerts params rs (record db {
    alerts = alert_of params r db.next_id db.now ∷ db.alerts;
    next_id = db.next_id + 1;
  })

  abbrev pub verdict : List RuleCheckResult → Result (Unit {0})
  verdict results =
      if is_some (find (λ r. is_block r.action) results)
      then err (forbidden fraud_blocked)
      else ok tt

  abbrev pub apply_rules : FraudCheckParams → List FraudRule → Exec Store (Unit {0})
  apply_rules params rules db =
      let (results, db') = check_rules rules params db in
      (verdict results, save_alerts params results db')

  unfoldable pub evaluate_rules : FraudCheckParams → Exec Store (Unit {0})
  unfolding get_active_rules check_rules
  evaluate_rules params = do
    rules ← get_active_rules params.currency (level params.kyc_tier)
    apply_rules params rules

  unfoldable pub get_user_alerts : ℕ → ℕ → ℕ → Store → Page FraudAlert
  get_user_alerts user_id page limit db =
      page_of (select (λ a. a.user_id == user_id) db.alerts) page limit

abbrev no_config : RuleConfig
no_config = record {
  max_count = none;
  window_seconds = 0;
  max_amount = none;
  multiplier = none;
  min_history = none;
  z_score_threshold = none;
}

abbrev pub high_velocity : ℕ → ℕ → FraudRule
high_velocity id now = record {
  id = id;
  name = "High Velocity — NGN";
  rule_type = velocity;
  currency = some "NGN";
  kyc_tier = none;
  config = record no_config { max_count = some 20; window_seconds = 3600 };
  action = block;
  is_active = true;
  priority = 10;
  created_at = now;
}

abbrev pub large_single_transfer : ℕ → ℕ → FraudRule
large_single_transfer id now = record {
  id = id;
  name = "Large Single Transfer — NGN";
  rule_type = large_amount;
  currency = some "NGN";
  kyc_tier = none;
  config = record no_config {
    multiplier = some (record { num = 10; den = 0 });
    min_history = some 5;
  };
  action = flag;
  is_active = true;
  priority = 5;
  created_at = now;
}

abbrev pub unusual_pattern_detection : ℕ → ℕ → FraudRule
unusual_pattern_detection id now = record {
  id = id;
  name = "Unusual Pattern Detection";
  rule_type = unusual_pattern;
  currency = none;
  kyc_tier = none;
  config = record no_config { z_score_threshold = some (record { num = 7; den = 1 }) };
  action = flag;
  is_active = true;
  priority = 3;
  created_at = now;
}

-- One round of the loop of `seedDefaultRules`.
abbrev pub seed_fraud_rule : {R C : Type 0} → (ℕ → ℕ → FraudRule) → FraudDb R C → FraudDb R C
seed_fraud_rule make db =
    let row : FraudRule = make db.next_id db.now in
    if is_some (find (λ r. str_eq r.name row.name) db.rules)
    then db
    else record db { rules = row ∷ db.rules; next_id = db.next_id + 1 }

unfoldable pub seed_default_fraud_rules : {R C : Type 0} → FraudDb R C → FraudDb R C
seed_default_fraud_rules db =
    seed_fraud_rule unusual_pattern_detection
      (seed_fraud_rule large_single_transfer (seed_fraud_rule high_velocity db))
