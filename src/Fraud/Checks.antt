-- ===== src/Fraud/Checks.antt =====
-- `checkRule` and the four checks of src/modules/fraud/fraud.service.ts.
-- `x > limit`, where a limit that is missing is never passed.
use transact_go.Cache.{Cache}
use transact_go.Fraud.Entities.{
  CheckContext, FraudCheckParams, FraudRule, FraudRuleType, RuleCheckResult, blacklist,
  daily_context, daily_limit_rule, insufficient_history, large_amount, large_context, no_context,
  unusual_context, unusual_pattern, velocity, velocity_context,
}
use transact_go.Fraud.State.{CounterKey, FraudDb, Sql, cache_call}
use transact_go.Outcome.{Exec, Result, err, gets, modify, ok, pure, ◌>>=◌, ◌>>◌}
use transact_go.Prelude.{
  Bool, List, Option, false, if◌then◌else◌, leb, length, ltb, map, none, select, some, str_eq, suc,
  true, ℕ, ◌&&◌, ◌*◌, ◌+◌, ◌-◌, ◌==◌, ◌||◌,
}
use transact_go.Prelude.Int.{eqb_ℤ, ltb_ℤ, neg_part, negsuc, pos, pos_part, ℤ, ◌+ℤ◌, ◌-ℤ◌}
use transact_go.Prelude.Paging.{or_default}
use transact_go.Prelude.Rows.{sum_by}
use transact_go.Ratio.{Ratio}
use transact_go.Transfers.Entities.{Transfer, TransferStatus, counts_today}

abbrev pub above : ℤ → Option ℤ → Bool
above x none = false
above x (some limit) = ltb_ℤ limit x

abbrev pub below_count : ℕ → Option ℕ → Bool
below_count n none = false
below_count n (some m) = ltb n m

abbrev pub above_count : ℕ → Option ℕ → Bool
above_count n none = false
above_count n (some m) = ltb m n

-- `k * z`
unfoldable pub times : ℕ → ℤ → ℤ
times k (pos n) = pos (k * n)
times k (negsuc n) = pos 0 -ℤ pos (k * suc n)

abbrev pub abs_ℤ : ℤ → ℕ
abs_ℤ z = pos_part z + neg_part z

-- `x > avg * multiplier`
abbrev pub above_multiple : ℤ → ℤ → Option Ratio → Bool
above_multiple x avg none = false
above_multiple x avg (some m) = ltb_ℤ (times m.num avg) (times (suc m.den) x)

-- `Math.abs(deviation / stddev) > threshold`, for a `stddev` that is not 0
abbrev pub above_z_score : ℤ → ℤ → Option Ratio → Bool
above_z_score deviation stddev none = false
above_z_score deviation stddev (some t) = ltb (t.num * abs_ℤ stddev) (suc t.den * abs_ℤ deviation)

-- `parseInt(value || '0', 10)`
abbrev pub number_or_zero : Option ℤ → ℤ
number_or_zero none = pos 0
number_or_zero (some z) = z

abbrev pub is_completed : TransferStatus → Bool
is_completed TransferStatus.completed = true
is_completed _ = false

abbrev pub in_window : FraudCheckParams → ℕ → Transfer → Bool
in_window params since t =
    t.user_id == params.user_id && (str_eq t.currency params.currency && leb since t.created_at)

-- The amounts of the query of the last two checks.
abbrev pub completed_amounts : FraudCheckParams → ℕ → List Transfer → List ℤ
completed_amounts params since transfers =
    map Transfer.amount (select (λ t. is_completed t.status && in_window params since t) transfers)

-- Thirty days, in milliseconds.
abbrev pub history_window : ℕ
history_window = 2_592_000_000

abbrev pub day_amount : FraudCheckParams → ℕ → Transfer → ℤ
day_amount params since t =
    if counts_today t.status && in_window params since t then t.amount else pos 0

-- `COALESCE(SUM(t.amount), 0)`
abbrev pub day_total : FraudCheckParams → ℕ → List Transfer → ℤ
day_total params since transfers = sum_by (day_amount params since) transfers

abbrev pub result_of : FraudRule → Bool → CheckContext → RuleCheckResult
result_of rule triggered context = record {
  triggered = triggered;
  rule_name = rule.name;
  action = rule.action;
  context = context;
}

module _ (sql : Sql) (start_of_day : ℕ → ℕ) (R : Type 0) (C : Cache CounterKey ℕ) where
  abbrev pub FraudStore : Type 0
  FraudStore = FraudDb R C.State

  abbrev pub counter_key : FraudRule → FraudCheckParams → CounterKey
  counter_key rule params = (params.user_id, params.currency, rule.id)

  abbrev pub set_counter : CounterKey → ℕ → ℕ → FraudStore → FraudStore
  set_counter key count ttl db = record db { counters = C.set key count ttl db.counters }

  abbrev pub put_count : FraudRule → FraudCheckParams → ℕ → Exec FraudStore ℕ
  put_count rule params count = do
    modify (set_counter (counter_key rule params) count (rule.config.window_seconds * 1000))
    pure count

  -- The counter as it was read, and what is written to it.
  abbrev pub read_count : FraudRule → FraudCheckParams → FraudStore → ℕ
  read_count rule params db = or_default (C.get (counter_key rule params) db.counters) 0

  abbrev pub bump_counter : FraudRule → FraudCheckParams → Exec FraudStore ℕ
  bump_counter rule params = do
    current ← gets (read_count rule params)
    cache_call
    put_count rule params (current + 1)

  -- The body of the `try`.
  abbrev pub count_in_cache : FraudRule → FraudCheckParams → Exec FraudStore ℕ
  count_in_cache rule params = do cache_call; bump_counter rule params

  -- The `catch`.
  abbrev pub count_in_table : FraudRule → FraudCheckParams → FraudStore → ℕ
  count_in_table rule params db =
      let since = db.now - rule.config.window_seconds * 1000 in
      length (select (in_window params since) db.transfers) + 1

  abbrev pub caught : FraudRule → FraudCheckParams → Result ℕ × FraudStore → ℕ × FraudStore
  caught rule params (ok count, db) = (count, db)
  caught rule params (err e, db) = (count_in_table rule params db, db)

  unfoldable pub check_velocity :
      FraudRule → FraudCheckParams → FraudStore → RuleCheckResult × FraudStore
  unfolding cache_call
  check_velocity rule params db =
      let (count, db') = caught rule params (count_in_cache rule params db) in
      (
        result_of rule (above_count count rule.config.max_count)
            (velocity_context count rule.config.max_count rule.config.window_seconds),
        db',
      )

  unfoldable pub check_daily_limit : FraudRule → FraudCheckParams → FraudStore → RuleCheckResult
  check_daily_limit rule params db =
      let daily = day_total params (start_of_day db.now) db.transfers in
      result_of rule (above (daily +ℤ params.amount) rule.config.max_amount)
        (daily_context daily (daily +ℤ params.amount) rule.config.max_amount)

  unfoldable pub check_large_amount : FraudRule → FraudCheckParams → FraudStore → RuleCheckResult
  check_large_amount rule params db =
      let amounts = completed_amounts params (db.now - history_window) db.transfers in
      let avg = number_or_zero (sql.avg amounts) in
      if below_count (length amounts) rule.config.min_history || eqb_ℤ avg (pos 0)
      then result_of rule false insufficient_history
      else result_of rule (above_multiple params.amount avg rule.config.multiplier)
          (large_context params.amount avg rule.config.multiplier (length amounts))

  unfoldable pub check_unusual_pattern : FraudRule → FraudCheckParams → FraudStore → RuleCheckResult
  check_unusual_pattern rule params db =
      let amounts = completed_amounts params (db.now - history_window) db.transfers in
      let mean = number_or_zero (sql.avg amounts) in
      let stddev = number_or_zero (sql.stddev amounts) in
      if ltb (length amounts) 5 || eqb_ℤ stddev (pos 0)
      then result_of rule false insufficient_history
      else result_of rule
          (above_z_score (params.amount -ℤ mean) stddev rule.config.z_score_threshold)
          (unusual_context (params.amount -ℤ mean) rule.config.z_score_threshold mean stddev)

  abbrev pub check_type :
      FraudRuleType → FraudRule → FraudCheckParams → FraudStore → RuleCheckResult × FraudStore
  check_type velocity rule params db = check_velocity rule params db
  check_type daily_limit_rule rule params db = (check_daily_limit rule params db, db)
  check_type large_amount rule params db = (check_large_amount rule params db, db)
  check_type unusual_pattern rule params db = (check_unusual_pattern rule params db, db)
  check_type blacklist rule params db = (result_of rule false no_context, db)

  unfoldable pub check_rule :
      FraudRule → FraudCheckParams → FraudStore → RuleCheckResult × FraudStore
  unfolding check_velocity check_daily_limit check_large_amount check_unusual_pattern
  check_rule rule params db = check_type rule.rule_type rule params db
