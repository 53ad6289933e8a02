-- ===== src/Fraud/Alerts.antt =====
-- The alerts that `evaluate` of src/modules/fraud/fraud.service.ts leaves, and how it ends.
use mathlib.Core.List.{append_assoc}
use transact_go.Cache.{Cache}
use transact_go.Fraud.Checks.{check_rule}
use transact_go.Fraud.Entities.{FraudAlert, FraudCheckParams, FraudRule, RuleCheckResult, is_block}
use transact_go.Fraud.Frame.{Keeps, Keeps-refl, Keeps-trans, check_rule-Keeps, drop_call-Keeps}
use transact_go.Fraud.Service.{
  Store, alert_of, apply_rules, cached_rules_first, check_rules, evaluate_rules, get_active_rules,
  matches_rule, query_done, rules_or_query, save_alerts, verdict,
}
use transact_go.Fraud.State.{CounterKey, RulesKey, Sql, after_call, drop_call}
use transact_go.Outcome.{
  Result, cache_unavailable, err, forbidden, fraud_blocked, internal, ok, resume,
}
use transact_go.Prelude.{
  All, Bool, List, Option, String, [], ap, arith, false, find, inl, inr, is_some, none, refl,
  select, some, sym, true, ℕ, ◌++◌, ◌+◌, ◌||◌, ◌↔◌, ◌∙◌, ◌∷◌, ◌≡◌, ◌⊎◌,
}
use transact_go.Users.Entities.{level}

module _ (sql : Sql) (start_of_day : ℕ → ℕ) (R : Cache RulesKey (List FraudRule))
    (C : Cache CounterKey ℕ) where
  pub check_rules-Keeps :
      (rules : List FraudRule) (params : FraudCheckParams) (db : Store sql start_of_day R C)
      → Keeps sql start_of_day R.State C db (check_rules sql start_of_day R C rules params db).1
  unfolding check_rules
  check_rules-Keeps [] params db = Keeps-refl sql start_of_day R.State C db
  check_rules-Keeps (rule ∷ rules) params db =
      let after : Store sql start_of_day R C =
        (check_rule sql start_of_day R.State C rule params db).1 in
      Keeps-trans sql start_of_day R.State C db after
        (check_rules sql start_of_day R C rules params after).1
        (check_rule-Keeps sql start_of_day R.State C rule params db)
        (check_rules-Keeps rules params after)

  abbrev pub cached_or_table : RulesKey → List FraudRule → Option (List FraudRule) → List FraudRule
  cached_or_table key table none = sql.by_priority (select (matches_rule key) table)
  cached_or_table key table (some cached) = cached

  -- The rules that apply: those that the cache holds for this currency and tier, or those of the
  -- table.
  abbrev pub rules_for : RulesKey → Store sql start_of_day R C → List FraudRule
  rules_for key db = cached_or_table key db.rules (R.get key db.cached_rules)

  -- The cache throws, or the rules come back.
  abbrev pub Reads :
      Store sql start_of_day R C
      → List FraudRule
      → Result (List FraudRule) × Store sql start_of_day R C
      → Type 0
  Reads db rules x =
      ((x.0 ≡ err (internal cache_unavailable)) ⊎ (x.0 ≡ ok rules))
      × Keeps sql start_of_day R.State C db x.1

  set_rules-Keeps :
      (key : RulesKey) (rules : List FraudRule) (db : Store sql start_of_day R C)
      → Keeps sql start_of_day R.State C db
          (record db { cached_rules = R.set key rules 120_000 db.cached_rules })
  set_rules-Keeps key rules db = record {
    rules_kept = refl;
    alerts_kept = refl;
    transfers_kept = refl;
    time_kept = refl;
  }

  rules_or_query-Reads :
      (key : RulesKey) (cached : Option (List FraudRule)) (db : Store sql start_of_day R C)
      → Reads db
          (cached_or_table key db.rules cached)
          (rules_or_query sql start_of_day R C key cached db)
  rules_or_query-Reads key (some cached) db = (inr refl, Keeps-refl sql start_of_day R.State C db)
  rules_or_query-Reads key none db =
      let rules : List FraudRule = cached_or_table key db.rules none in
      let dropped : Keeps sql start_of_day R.State C db (drop_call db) =
        drop_call-Keeps sql start_of_day R.State C db in
      after_call (Reads db rules) (query_done sql start_of_day R C key rules) db (inl refl, dropped)
        (
          inr refl,
          Keeps-trans sql start_of_day R.State C db (drop_call db) _ dropped
              (set_rules-Keeps key rules (drop_call db)),
        )

  pub get_active_rules-Reads :
      (currency : String) (tier : ℕ) (db : Store sql start_of_day R C)
      → Reads db
          (rules_for (currency, tier) db)
          (get_active_rules sql start_of_day R C currency tier db)
  unfolding get_active_rules
  get_active_rules-Reads currency tier db =
      let dropped : Keeps sql start_of_day R.State C db (drop_call db) =
        drop_call-Keeps sql start_of_day R.State C db in
      let cached : Option (List FraudRule) = R.get (currency, tier) db.cached_rules in
      let (read, kept) = rules_or_query-Reads (currency, tier) cached (drop_call db) in
      after_call (Reads db (rules_for (currency, tier) db))
        (cached_rules_first sql start_of_day R C (currency, tier)) db (inl refl, dropped)
        (read, Keeps-trans sql start_of_day R.State C db (drop_call db) _ dropped kept)

  -- The alerts of one evaluation, in front of the older ones.
  abbrev pub AreAlertsOf : FraudCheckParams → List FraudAlert → Type 0
  AreAlertsOf params = All (λ a.
      (a.user_id ≡ params.user_id)
      × (a.amount ≡ params.amount)
      × (a.currency ≡ params.currency)
      × (a.reviewed ≡ false))

  abbrev pub any_blocks : List FraudAlert → Bool
  any_blocks alerts = is_some (find (λ a. is_block a.action_taken) alerts)

  any_blocks-append :
      (a : FraudAlert) (xs : List FraudAlert)
      → any_blocks (xs ++ (a ∷ [])) ≡ (is_block a.action_taken || any_blocks xs)
  any_blocks-append a [] = ground arith
  any_blocks-append a (x ∷ xs) = ground (arith, any_blocks-append a xs)

  AreAlertsOf-append :
      (params : FraudCheckParams) (a : FraudAlert) (xs : List FraudAlert)
      → AreAlertsOf params xs
      → AreAlertsOf params (a ∷ [])
      → AreAlertsOf params (xs ++ (a ∷ []))
  AreAlertsOf-append params a [] h k = k
  AreAlertsOf-append params a (x ∷ xs) h k = (h.0, AreAlertsOf-append params a xs h.1 k)

  abbrev pub result_blocks : List RuleCheckResult → Bool
  result_blocks results = is_some (find (λ r. is_block r.action) results)

  result_blocks-cons :
      (r : RuleCheckResult) (rs : List RuleCheckResult)
      → (is_block r.action || result_blocks rs) ≡ result_blocks (r ∷ rs)
  result_blocks-cons r rs = ground arith

  save_alerts-inv :
      (params : FraudCheckParams) (rs : List RuleCheckResult) (db : Store sql start_of_day R C)
      → (new : List FraudAlert) × ((save_alerts sql start_of_day R C params rs db).alerts
          ≡ new ++ db.alerts)
        × AreAlertsOf params new
        × (any_blocks new ≡ result_blocks rs)
  save_alerts-inv params [] db = ([], refl, tt, refl)
  save_alerts-inv params (r ∷ rs) db =
      let a : FraudAlert = alert_of params r db.next_id db.now in
      let (new, e, own, blocks) =
        save_alerts-inv params rs
          (record db { alerts = a ∷ db.alerts; next_id = db.next_id + 1 }) in
      (
        new ++ (a ∷ []),
        e ∙ sym (append_assoc new (a ∷ []) db.alerts),
        AreAlertsOf-append params a new own ((refl, refl, refl, refl), tt),
        any_blocks-append a new ∙ ap (λ x. is_block r.action || x) blocks ∙ result_blocks-cons r rs,
      )

  -- How an evaluation ends, and what it adds to the alerts.
  abbrev Outcome :
      FraudCheckParams → List FraudAlert → Result (Unit {0}) × Store sql start_of_day R C → Type 0
  Outcome params before x =
      (new : List FraudAlert) × (x.1.alerts ≡ new ++ before)
      × AreAlertsOf params new
      × ((x.0 ≡ err (forbidden fraud_blocked)) ↔ (any_blocks new ≡ true))

  verdict_iff :
      (results : List RuleCheckResult)
      → (verdict sql start_of_day R C results ≡ err (forbidden fraud_blocked))
        ↔ (result_blocks results ≡ true)
  verdict_iff results = ground arith

  after_reading :
      (params : FraudCheckParams) (rules : List FraudRule) (db : Store sql start_of_day R C)
      (x : Result (List FraudRule) × Store sql start_of_day R C)
      → Reads db rules x
      → Outcome params db.alerts (resume (apply_rules sql start_of_day R C params) x)
  after_reading params rules db (err e, db') (read, kept) =
      ([], kept.alerts_kept, tt, (λ same. ground arith, λ none_blocks. cc none_blocks))
  after_reading params rules db (ok found, db') (read, kept) =
      let (results, after) = check_rules sql start_of_day R C found params db' in
      let checked : Keeps sql start_of_day R.State C db' after =
        check_rules-Keeps found params db' in
      let (new, e, own, blocks) = save_alerts-inv params results after in
      (
        new,
        e ∙ ap (λ t. new ++ t) (checked.alerts_kept ∙ kept.alerts_kept),
        own,
        rw blocks (verdict_iff results),
      )

  -- Whatever the cache forgets and whenever it throws, an evaluation only adds alerts in front of
  -- those that are there. All of them are of this user, amount and currency and not yet reviewed,
  -- and the transaction is blocked exactly when one of them says so.
  pub evaluate_rules-alerts :
      (params : FraudCheckParams) (db : Store sql start_of_day R C)
      → (new : List FraudAlert) × ((evaluate_rules sql start_of_day R C params db).1.alerts
          ≡ new ++ db.alerts)
        × AreAlertsOf params new
        × (((evaluate_rules sql start_of_day R C params db).0 ≡ err (forbidden fraud_blocked))
            ↔ (any_blocks new ≡ true))
  unfolding evaluate_rules
  evaluate_rules-alerts params db =
      let key : RulesKey = (params.currency, level params.kyc_tier) in
      after_reading params (rules_for key db) db
        (get_active_rules sql start_of_day R C params.currency (level params.kyc_tier) db)
        (get_active_rules-Reads params.currency (level params.kyc_tier) db)
