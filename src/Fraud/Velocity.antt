-- ===== src/Fraud/Velocity.antt =====
-- The counter of `checkVelocity` of src/modules/fraud/fraud.service.ts: checks one after the other,
-- and two checks whose calls of the cache interleave.
use transact_go.Cache.{Cache}
use transact_go.Fraud.Checks.{
  above_count, check_velocity, counter_key, put_count, read_count, result_of,
}
use transact_go.Fraud.Entities.{FraudCheckParams, FraudRule, velocity_context}
use transact_go.Fraud.State.{CounterKey, FraudDb, Sql, cache_call}
use transact_go.Prelude.{
  Option, [], ap, arith, inl, inr, ltb, refl, some, suc, true, zero, ℕ, ◌*◌, ◌+◌, ◌<◌, ◌↔◌, ◌∙◌,
  ◌≡◌, ◌⊎◌,
}
use transact_go.Prelude.Paging.{or_default}

module _ (sql : Sql) (start_of_day : ℕ → ℕ) (R : Type 0) (C : Cache CounterKey ℕ) (rule : FraudRule)
    (params : FraudCheckParams) where
  abbrev count : FraudDb R C.State → ℕ
  count db = read_count sql start_of_day R C rule params db

  -- `n` checks of the same user, currency and rule, one after the other.
  unfoldable pub check_times : ℕ → FraudDb R C.State → FraudDb R C.State
  check_times zero db = db
  check_times (suc n) db = check_times n (check_velocity sql start_of_day R C rule params db).1

  -- The state after a check that finds the cache up.
  abbrev counted : FraudDb R C.State → FraudDb R C.State
  counted db = record db {
    outages = [];
    counters =
        C.set (counter_key sql start_of_day R C rule params) (count db + 1)
          (rule.config.window_seconds * 1000) db.counters;
  }

  check_velocity_up :
      (db : FraudDb R C.State)
      → db.outages ≡ []
      → check_velocity sql start_of_day R C rule params db ≡ (
        result_of rule
            (above_count (count db + 1) rule.config.max_count)
            (velocity_context (count db + 1) rule.config.max_count rule.config.window_seconds),
        counted db,
      )
  unfolding check_velocity cache_call
  check_velocity_up db up = rw up refl

  read_back : (v : ℕ) (o : Option ℕ) → o ≡ some v → or_default o 0 ≡ v
  read_back v o e = rw e (ground arith)

  check_times_counted :
      (n : ℕ) (db : FraudDb R C.State)
      → ((key : CounterKey) (v ttl : ℕ) (s : C.State) → C.get key (C.set key v ttl s) ≡ some v)
      → db.outages ≡ []
      → ((check_times n db).outages ≡ []) × (count (check_times n db) ≡ count db + n)
  unfolding check_times
  check_times_counted zero db holds up = (up, omega arith)
  check_times_counted (suc n) db holds up =
      let step : (check_velocity sql start_of_day R C rule params db).1 ≡ counted db =
        ap (λ x. x.1) (check_velocity_up db up) in
      let (up', total) = check_times_counted n (counted db) holds refl in
      let one : count (counted db) ≡ count db + 1 = read_back (count db + 1) _ (holds _ _ _ _) in
      (
        ap (λ d. (check_times n d).outages) step ∙ up',
        ap (λ d. count (check_times n d)) step ∙ total ∙ omega (arith, one),
      )

  -- Where the cache is up and loses no counter: after `n` checks of the same user, currency and
  -- rule, the next one is triggered exactly when it is past the maximum, counted from what the
  -- counter held at first. A check that was triggered counts like the others.
  pub check_velocity-check_times :
      (n limit : ℕ) (db : FraudDb R C.State)
      → ((key : CounterKey) (v ttl : ℕ) (s : C.State) → C.get key (C.set key v ttl s) ≡ some v)
      → db.outages ≡ []
      → rule.config.max_count ≡ some limit
      → ((check_velocity sql start_of_day R C rule params (check_times n db)).0.triggered ≡ true)
        ↔ (limit < count db + n + 1)
  check_velocity-check_times n limit db holds up at_most =
      let (up', total) = check_times_counted n db holds up in
      let result : (check_velocity sql start_of_day R C rule params (check_times n db)).0.triggered
          ≡ ltb limit (count db + n + 1) =
        ap (λ x. x.0.triggered) (check_velocity_up (check_times n db) up')
        ∙ ap (λ m. above_count (count (check_times n db) + 1) m) at_most
        ∙ ap (λ k. ltb limit (k + 1)) total in
      rw result (ground arith)

  -- Two requests that both read the counter before either writes it: it has grown by one, or the
  -- cache has lost it.
  put_count-put_count :
      (db : FraudDb R C.State)
      → let first = count db + 1 in
        let second = count db + 1 in
        let written = (put_count sql start_of_day R C rule params first db).1 in
        let both = (put_count sql start_of_day R C rule params second written).1 in
        (count both ≡ count db + 1) ⊎ (count both ≡ 0)
  put_count-put_count db =
      let key : CounterKey = counter_key sql start_of_day R C rule params in
      let ttl : ℕ = rule.config.window_seconds * 1000 in
      elim (C.get-set key (count db + 1) ttl (C.set key (count db + 1) ttl db.counters)) [
        | inl kept ↦ inl (read_back (count db + 1) _ kept)
        | inr lost ↦ inr (rw lost refl)
      ]
