-- ===== src/Fraud/Frame.antt =====
-- What the checks of src/modules/fraud/fraud.service.ts leave as it was.
use transact_go.Cache.{Cache}
use transact_go.Fraud.Checks.{
  bump_counter, caught, check_rule, check_type, check_velocity, count_in_cache, counter_key,
  put_count, read_count, set_counter,
}
use transact_go.Fraud.Entities.{
  FraudCheckParams, FraudRule, FraudRuleType, blacklist, daily_limit_rule, large_amount,
  unusual_pattern, velocity,
}
use transact_go.Fraud.State.{CounterKey, FraudDb, Sql, cache_call, drop_call}
use transact_go.Outcome.{Exec, Result, err, ok, resume, ◌>>=◌}
use transact_go.Prelude.{refl, ℕ, ◌*◌, ◌+◌, ◌∙◌, ◌≡◌}

module _ (sql : Sql) (start_of_day : ℕ → ℕ) (R : Type 0) (C : Cache CounterKey ℕ) where
  pub record Keeps (before after : FraudDb R C.State) : Type 0 where
    pub rules_kept : after.rules ≡ before.rules
    pub alerts_kept : after.alerts ≡ before.alerts
    pub transfers_kept : after.transfers ≡ before.transfers
    pub time_kept : after.now ≡ before.now

  pub Keeps-refl : (db : FraudDb R C.State) → Keeps db db
  Keeps-refl db = record {
    rules_kept = refl;
    alerts_kept = refl;
    transfers_kept = refl;
    time_kept = refl;
  }

  pub Keeps-trans : (a b c : FraudDb R C.State) → Keeps a b → Keeps b c → Keeps a c
  Keeps-trans a b c h k = record {
    rules_kept = k.rules_kept ∙ h.rules_kept;
    alerts_kept = k.alerts_kept ∙ h.alerts_kept;
    transfers_kept = k.transfers_kept ∙ h.transfers_kept;
    time_kept = k.time_kept ∙ h.time_kept;
  }

  abbrev pub AlwaysKeeps : {A : Type 0} → Exec (FraudDb R C.State) A → Type 0
  AlwaysKeeps m = (db : FraudDb R C.State) → Keeps db (m db).1

  resume-Keeps :
      {A B : Type 0} (f : A → Exec (FraudDb R C.State) B) (db : FraudDb R C.State)
      → ((a : A) → AlwaysKeeps (f a))
      → (x : Result A × FraudDb R C.State) → Keeps db x.1
      → Keeps db (resume f x).1
  resume-Keeps f db later (ok a, db') h = Keeps-trans db db' (f a db').1 h (later a db')
  resume-Keeps f db later (err e, db') h = h

  pub bind-Keeps :
      {A B : Type 0} (m : Exec (FraudDb R C.State) A) (f : A → Exec (FraudDb R C.State) B)
      → AlwaysKeeps m
      → ((a : A) → AlwaysKeeps (f a))
      → AlwaysKeeps (m >>= f)
  bind-Keeps m f first later db = resume-Keeps f db later (m db) (first db)

  pub drop_call-Keeps : (db : FraudDb R C.State) → Keeps db (drop_call db)
  drop_call-Keeps db = record {
    rules_kept = refl;
    alerts_kept = refl;
    transfers_kept = refl;
    time_kept = refl;
  }

  cache_call-Keeps : AlwaysKeeps cache_call
  unfolding cache_call
  cache_call-Keeps db = drop_call-Keeps db

  set_counter-Keeps :
      (key : CounterKey) (count ttl : ℕ) (db : FraudDb R C.State)
      → Keeps db (set_counter sql start_of_day R C key count ttl db)
  set_counter-Keeps key count ttl db = record {
    rules_kept = refl;
    alerts_kept = refl;
    transfers_kept = refl;
    time_kept = refl;
  }

  count_in_cache-Keeps :
      (rule : FraudRule) (params : FraudCheckParams)
      → AlwaysKeeps (count_in_cache sql start_of_day R C rule params)
  count_in_cache-Keeps rule params =
      bind-Keeps cache_call (λ _. bump_counter sql start_of_day R C rule params) cache_call-Keeps
        (λ _ db.
          let count : ℕ = read_count sql start_of_day R C rule params db + 1 in
          bind-Keeps cache_call (λ _. put_count sql start_of_day R C rule params count)
            cache_call-Keeps
            (λ _.
              set_counter-Keeps (counter_key sql start_of_day R C rule params) count
                (rule.config.window_seconds * 1000))
            db)

  caught-Keeps :
      (rule : FraudRule) (params : FraudCheckParams) (db : FraudDb R C.State)
      (x : Result ℕ × FraudDb R C.State)
      → Keeps db x.1
      → Keeps db (caught sql start_of_day R C rule params x).1
  caught-Keeps rule params db (ok count, db') h = h
  caught-Keeps rule params db (err e, db') h = h

  check_type-Keeps :
      (kind : FraudRuleType) (rule : FraudRule) (params : FraudCheckParams) (db : FraudDb R C.State)
      → Keeps db (check_type sql start_of_day R C kind rule params db).1
  unfolding check_velocity
  check_type-Keeps velocity rule params db =
      caught-Keeps rule params db (count_in_cache sql start_of_day R C rule params db)
        (count_in_cache-Keeps rule params db)
  check_type-Keeps daily_limit_rule rule params db = Keeps-refl db
  check_type-Keeps large_amount rule params db = Keeps-refl db
  check_type-Keeps unusual_pattern rule params db = Keeps-refl db
  check_type-Keeps blacklist rule params db = Keeps-refl db

  pub check_rule-Keeps :
      (rule : FraudRule) (params : FraudCheckParams) (db : FraudDb R C.State)
      → Keeps db (check_rule sql start_of_day R C rule params db).1
  unfolding check_rule
  check_rule-Keeps rule params db = check_type-Keeps rule.rule_type rule params db
