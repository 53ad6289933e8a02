-- ===== src/Tasks/Service.antt =====
-- `ScheduledTasksService` of src/modules/queue/queue.module.ts: what a task does when its timer calls
-- it. `R` and `F` are the caches of the fraud service, `C` is that of the exchange rates.
use transact_go.Cache.{Cache}
use transact_go.Exchange.Service.{ExchangeRate, RateDb, refresh_mock_rates}
use transact_go.Fees.Rules.{RuleTable, seed_default_rules}
use transact_go.Fraud.Service.{seed_default_fraud_rules}
use transact_go.Fraud.State.{FraudDb}
use transact_go.Idempotency.Interceptor.{IdempotencyRecord, RecordStatus, Server}
use transact_go.Outcome.{Exec, database_unavailable, err, internal}
use transact_go.Prelude.{
  Bool, List, String, [], false, if◌then◌else◌, length, ltb, not, select, true, ℕ, ◌&&◌, ◌*◌, ◌+◌,
  ◌∷◌,
}
use transact_go.Ratio.{Ratio}

-- 25 hours, in milliseconds.
abbrev pub retention : ℕ
retention = 25 * 3_600_000

abbrev pub is_completed : RecordStatus → Bool
is_completed RecordStatus.completed = true
is_completed _ = false

-- `{ createdAt: LessThan(cutoff), status: 'completed' }`
abbrev pub is_expired : {B : Type 0} → ℕ → IdempotencyRecord B → Bool
is_expired now r = ltb (r.created_at + retention) now && is_completed r.status

-- The number of rows that were deleted goes into the log.
unfoldable pub cleanup_idempotency_records : {B S : Type 0} → Server B S → ℕ × Server B S
cleanup_idempotency_records s = (
  length (select (is_expired s.now) s.records),
  record s { records = select (λ r. not (is_expired s.now r)) s.records },
)

pub record QueueCounts : Type 0 where
  pub waiting : ℕ
  pub active : ℕ
  pub completed : ℕ
  pub failed : ℕ

pub data MetricsLine : Type 0 where
  queue_counts : QueueCounts → MetricsLine
  high_failure_rate : ℕ → MetricsLine

unfoldable pub log_queue_metrics : QueueCounts → List MetricsLine
log_queue_metrics c =
    queue_counts c ∷ (if ltb 10 c.failed then high_failure_rate c.failed ∷ [] else [])

module _ (to_column : Ratio → Ratio) (C : Cache String ExchangeRate) (R F : Type 0) where
  pub record StartDb : Type 0 where
    pub fee_rules : RuleTable
    pub fraud : FraudDb R F
    pub rates : RateDb to_column C

  abbrev pub on_rates : Exec (RateDb to_column C) (Unit {0}) → Exec StartDb (Unit {0})
  on_rates m s = let (r, rates) = m s.rates in (r, record s { rates = rates })

  abbrev pub run_start : Exec StartDb (Unit {0})
  run_start s = on_rates (refresh_mock_rates to_column C) (record s {
    fee_rules = seed_default_rules s.fee_rules;
    fraud = seed_default_fraud_rules s.fraud;
  })

  -- `Promise.all`: the three run on tables of their own, and the start fails if one of them does.
  -- `up` says whether the database answers; an outage is from the first call to the last.
  unfoldable pub on_module_init : (up : Bool) → Exec StartDb (Unit {0})
  on_module_init up s = if up then run_start s else (err (internal database_unavailable), s)

  -- An error of the refresh is caught and logged.
  unfoldable pub refresh_exchange_rates : (up : Bool) → StartDb → StartDb
  refresh_exchange_rates up s = if up then (on_rates (refresh_mock_rates to_column C) s).1 else s
