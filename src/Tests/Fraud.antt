-- ===== src/Tests/Fraud.antt =====
-- The theorems on fraud, applied to one user, one rule for the total of a day and one for the number of
-- requests.
use text.Mathlib.TextPositions.{eq_refl}
use transact_go.Cache.{Cache}
use transact_go.Fees.Service.{build_zero_fee, calculate}
use transact_go.Fraud.Alerts.{AreAlertsOf, any_blocks, evaluate_rules-alerts}
use transact_go.Fraud.Checks.{check_daily_limit, check_rule, check_velocity}
use transact_go.Fraud.DailyLimit.{breaks_daily_limit}
use transact_go.Fraud.Entities.{FraudAlert, FraudCheckParams, FraudRule, daily_limit_rule}
use transact_go.Fraud.Gate.{FraudGate}
use transact_go.Fraud.Service.{check_rules, evaluate_rules, get_active_rules, high_velocity}
use transact_go.Fraud.State.{CounterKey, FraudDb, RulesKey, Sql, cache_call}
use transact_go.Fraud.Velocity.{check_times, check_velocity-check_times}
use transact_go.Fraud.Withdrawals.{gate_of, initiate_withdrawal-daily_limit}
use transact_go.Outcome.{Result, err, forbidden, fraud_blocked}
use transact_go.Payments.Service.{
  InitiateWithdrawalDto, initiate_withdrawal, withdrawal_body, withdrawal_row,
}
use transact_go.Prelude.{
  Bool, List, Option, [], arith, eq_iff, false, find, is_some, none, refl, some, str_eq, true, ℕ,
  ◌&&◌, ◌++◌, ◌+◌, ◌<◌, ◌==◌, ◌↔◌, ◌∷◌, ◌≡◌, ◌≢◌,
}
use transact_go.Prelude.Int.{pos, ◌+ℤ◌, ◌-ℤ◌}
use transact_go.Tests.Fixtures.{
  midnight_of, no_cache, payer, seeded_schedule, start_db, table_cache,
}
use transact_go.Transfers.Store.{fits_columns}
use transact_go.Users.Entities.{tier_1}
use transact_go.Wallets.Service.{debit}

abbrev plain_sql : Sql
plain_sql = record {
  avg = λ amounts. none;
  stddev = λ amounts. none;
  by_priority = λ rules. rules;
  by_priority-find = λ p rules. refl;
}

abbrev same_counter : CounterKey → CounterKey → Bool
same_counter (a, b, c) (x, y, z) = a == x && (str_eq b y && c == z)

same_counter_refl : (k : CounterKey) → same_counter k k ≡ true
same_counter_refl (a, b, c) = ground (arith, eq_refl b)

same_counter-ne : (j k : CounterKey) → j ≢ k → same_counter j k ≡ false
same_counter-ne (a, b, c) (x, y, z) ne = ground (arith, eq_iff b y)

abbrev counter_cache : Cache CounterKey ℕ
counter_cache = table_cache same_counter same_counter_refl same_counter-ne

abbrev no_rules : Cache RulesKey (List FraudRule)
no_rules = no_cache

abbrev daily_rule : FraudRule
daily_rule = record (high_velocity 30 0) {
  rule_type = daily_limit_rule;
  config = record {
    max_count = none;
    window_seconds = 0;
    max_amount = some (pos 5000);
    multiplier = none;
    min_history = none;
    z_score_threshold = none;
  };
}

abbrev fraud_db : FraudDb (Unit {0}) (CounterKey → Option ℕ)
fraud_db = record {
  rules = daily_rule ∷ [];
  alerts = [];
  transfers = [];
  next_id = 31;
  now = 1000;
  outages = [];
  cached_rules = tt;
  counters = λ k. none;
}

abbrev small : FraudCheckParams
small = record {
  user_id = 7;
  amount = pos 400;
  currency = "NGN";
  kyc_tier = tier_1;
  transfer_id = none;
}

abbrev big : FraudCheckParams
big = record small { amount = pos 9000 }

abbrev evaluated : FraudCheckParams → Result (Unit {0}) × FraudDb (Unit {0}) (CounterKey → Option ℕ)
evaluated params = evaluate_rules plain_sql midnight_of no_rules counter_cache params fraud_db

evaluate_rules-alerts_example :
    (new : List FraudAlert) × ((evaluated big).1.alerts ≡ new ++ [])
    × AreAlertsOf plain_sql midnight_of no_rules counter_cache big new
    × (((evaluated big).0 ≡ err (forbidden fraud_blocked))
        ↔ (any_blocks plain_sql midnight_of no_rules counter_cache new ≡ true))
evaluate_rules-alerts_example =
    evaluate_rules-alerts plain_sql midnight_of no_rules counter_cache big fraud_db

big_blocked : (evaluated big).0 ≡ err (forbidden fraud_blocked)
unfolding evaluate_rules get_active_rules cache_call check_rules check_rule check_daily_limit ◌+ℤ◌
big_blocked = refl

abbrev small_payout : InitiateWithdrawalDto
small_payout = record {
  wallet_id = 1;
  amount = pos 400;
  currency = "NGN";
  provider = "flutterwave";
  narration = none;
}

abbrev same_rules : RulesKey → RulesKey → Bool
same_rules (a, b) (x, y) = str_eq a x && b == y

same_rules_refl : (k : RulesKey) → same_rules k k ≡ true
same_rules_refl (a, b) = ground (arith, eq_refl a)

same_rules-ne : (j k : RulesKey) → j ≢ k → same_rules j k ≡ false
same_rules-ne (a, b) (x, y) ne = ground (arith, eq_iff a x)

abbrev rules_cache : Cache RulesKey (List FraudRule)
rules_cache = table_cache same_rules same_rules_refl same_rules-ne

-- The cache still holds the rule with a maximum of 5000, where the table has one of 100 by now.
abbrev warm_db : FraudDb (RulesKey → Option (List FraudRule)) (CounterKey → Option ℕ)
warm_db = record {
  rules =
      record daily_rule { config = record daily_rule.config { max_amount = some (pos 100) } } ∷ [];
  alerts = [];
  transfers = [];
  next_id = 31;
  now = 1000;
  outages = [];
  cached_rules = λ k. some (daily_rule ∷ []);
  counters = λ k. none;
}

abbrev guarded : FraudGate
guarded = gate_of plain_sql midnight_of rules_cache counter_cache warm_db

initiate_withdrawal-daily_limit_example :
    is_some (
      find
        (breaks_daily_limit plain_sql midnight_of rules_cache counter_cache small 1000 [])
        (daily_rule ∷ []))
    ≡ false
unfolding initiate_withdrawal withdrawal_body debit calculate build_zero_fee evaluate_rules
    get_active_rules cache_call check_rules check_rule check_daily_limit fits_columns ◌+ℤ◌ ◌-ℤ◌
initiate_withdrawal-daily_limit_example =
    initiate_withdrawal-daily_limit plain_sql midnight_of rules_cache counter_cache warm_db
      seeded_schedule true 7 small_payout payer
      (withdrawal_row seeded_schedule 7 small_payout 10 1000) start_db
      (initiate_withdrawal seeded_schedule guarded true 7 small_payout start_db).1 refl refl

check_velocity-check_times_example :
    let rule = high_velocity 30 0 in
    let after = check_times plain_sql midnight_of (Unit {0}) counter_cache rule small 20 fraud_db in
    ((check_velocity plain_sql midnight_of (Unit {0}) counter_cache rule small after).0.triggered
      ≡ true)
    ↔ (20 < 0 + 20 + 1)
check_velocity-check_times_example =
    check_velocity-check_times plain_sql midnight_of (Unit {0}) counter_cache (high_velocity 30 0)
      small 20 20 fraud_db (λ k v ttl s. rw (same_counter_refl k) refl) refl refl
