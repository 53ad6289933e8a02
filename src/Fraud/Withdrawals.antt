-- ===== src/Fraud/Withdrawals.antt =====
-- The fraud service of src/modules/fraud/fraud.service.ts behind the withdrawals of
-- src/modules/payments/payments.service.ts.
use mathlib.Core.Path.{subst}
use transact_go.Cache.{Cache}
use transact_go.Fraud.Alerts.{rules_for}
use transact_go.Fraud.DailyLimit.{breaks_daily_limit, evaluate_rules-daily_limit}
use transact_go.Fraud.Entities.{FraudRule}
use transact_go.Fraud.Gate.{FraudGate}
use transact_go.Fraud.Service.{Store, evaluate_rules}
use transact_go.Fraud.State.{CounterKey, RulesKey, Sql}
use transact_go.Outcome.{Result, err, ok}
use transact_go.Payments.Service.{InitiateWithdrawalDto, initiate_withdrawal}
use transact_go.Payments.Withdrawals.{initiate_withdrawal-inv, question}
use transact_go.Prelude.{
  Bool, List, [], false, find, inl, inr, is_some, refl, some, true, ℕ, ◌∷◌, ◌≡◌,
}
use transact_go.Transfers.Entities.{Transfer}
use transact_go.Transfers.Service.{FeeSchedule}
use transact_go.Transfers.Store.{Db, Evaluation, find_user}
use transact_go.Users.Entities.{User, level}

abbrev pub throws : {A : Type 0} → Result A → Bool
throws (ok a) = false
throws (err e) = true

module _ (sql : Sql) (start_of_day : ℕ → ℕ) (R : Cache RulesKey (List FraudRule))
    (C : Cache CounterKey ℕ) (store : Store sql start_of_day R C) where
  -- The service after the questions that a database holds, the newest first, from the state `store`:
  -- each is evaluated on the transfers and at the time that it found.
  abbrev pub after_evaluations : List Evaluation → Store sql start_of_day R C
  after_evaluations [] = store
  after_evaluations (e ∷ es) =
      (evaluate_rules sql start_of_day R C e.params
        (record (after_evaluations es) { transfers = e.transfers; now = e.now })).1

  -- The state of the fraud service over the transfers of a database.
  abbrev pub fraud_at : Db → Store sql start_of_day R C
  fraud_at db = record (after_evaluations db.evaluations) {
    transfers = db.transfers;
    now = db.bank.now;
  }

  -- The service as the payments see it. They throw whatever it throws.
  abbrev pub gate_of : FraudGate
  gate_of = record {
    blocks = λ params db. throws (evaluate_rules sql start_of_day R C params (fraud_at db)).0;
  }

  passed : (r : Result (Unit {0})) → throws r ≡ false → r ≡ ok tt
  passed (ok tt) e = refl
  passed (err x) e = cc e

  -- A withdrawal that is accepted by way of the fraud service: take the rules that the service goes by
  -- for its currency and the tier of its user, those that its cache holds, as old as they may be, or
  -- where it holds none the active ones of the table. None of them that blocks by the total of a day
  -- has a maximum below what the user has sent today together with the amount.
  pub initiate_withdrawal-daily_limit :
      (fees : FeeSchedule) (queue_up : Bool) (user : ℕ) (dto : InitiateWithdrawalDto) (u : User)
      (t : Transfer) (db db' : Db)
      → find_user user db ≡ some u
      → initiate_withdrawal fees gate_of queue_up user dto db ≡ (ok t, db')
      → is_some (
          find
            (breaks_daily_limit sql start_of_day R C
              (question fees gate_of queue_up user dto db u)
              db.bank.now
              db.transfers)
            (rules_for sql start_of_day R C (dto.currency, level u.kyc_tier) (fraud_at db)))
        ≡ false
  initiate_withdrawal-daily_limit fees queue_up user dto u t db db' user_found e =
      elim (initiate_withdrawal-inv fees gate_of queue_up user dto db) [
        | inl (x, kept, declined) ↦ cc (e, declined)
        | inr (w, v, a) ↦
            let same : v ≡ u = cc (a.user_found, user_found) in
            let open_gate : throws
                  (evaluate_rules sql start_of_day R C
                    (question fees gate_of queue_up user dto db u) (fraud_at db)).0
                ≡ false =
              subst
                (λ x.
                  throws
                    (evaluate_rules sql start_of_day R C
                      (question fees gate_of queue_up user dto db x) (fraud_at db)).0
                  ≡ false)
                same a.unblocked in
            evaluate_rules-daily_limit sql start_of_day R C
              (question fees gate_of queue_up user dto db u) (fraud_at db) (passed _ open_gate)
      ]
