-- ===== src/Fraud/State.antt =====
-- The state of src/modules/fraud/fraud.service.ts. The caches are parameters (Cache.antt): one for the rules, one
-- for the counters. Postgres computes averages and deviations and orders the rules: `Sql` says what
-- is relied on. `outages` says for each call of the cache in turn whether it throws, and when the
-- list has ended no call throws.
use mathlib.Core.Path.{subst}
use transact_go.Fraud.Entities.{FraudAlert, FraudRule}
use transact_go.Outcome.{Exec, Result, cache_unavailable, err, internal, ok, resume, ◌>>◌}
use transact_go.Prelude.{
  Bool, Bool-cases, List, Option, String, [], false, find, if◌then◌else◌, inl, inr, is_some, refl,
  sym, ℕ, ◌∷◌, ◌≡◌, ◌⊎◌,
}
use transact_go.Prelude.Int.{ℤ}
use transact_go.Transfers.Entities.{Transfer}

-- `AVG(…)::bigint` and `STDDEV(…)::bigint` of the amounts, null where there is none, and
-- `ORDER BY priority DESC`, which leaves open how equal priorities come.
pub record Sql : Type 0 where
  pub avg : List ℤ → Option ℤ
  pub stddev : List ℤ → Option ℤ
  pub by_priority : List FraudRule → List FraudRule
  pub by_priority-find :
      (p : FraudRule → Bool) (rules : List FraudRule)
      → is_some (find p (by_priority rules)) ≡ is_some (find p rules)

-- `fraud:rules:${currency}:${kycTier}`
abbrev pub RulesKey : Type 0
RulesKey = String × ℕ

-- `fraud:velocity:${userId}:${currency}:${ruleId}`
abbrev pub CounterKey : Type 0
CounterKey = ℕ × String × ℕ

pub record FraudDb (R C : Type 0) : Type 0 where
  pub rules : List FraudRule
  pub alerts : List FraudAlert
  pub transfers : List Transfer
  pub next_id : ℕ
  pub now : ℕ
  pub outages : List Bool
  pub cached_rules : R
  pub counters : C

-- Whether the next call of the cache throws.
abbrev pub fails_next : List Bool → Bool
fails_next [] = false
fails_next (out ∷ _) = out

abbrev pub later_calls : List Bool → List Bool
later_calls [] = []
later_calls (_ ∷ rest) = rest

abbrev pub drop_call : {R C : Type 0} → FraudDb R C → FraudDb R C
drop_call db = record db { outages = later_calls db.outages }

-- A call of the cache throws, or it goes through and what it does follows.
unfoldable pub cache_call : {R C : Type 0} → Exec (FraudDb R C) (Unit {0})
cache_call db =
    (if fails_next db.outages then err (internal cache_unavailable) else ok tt, drop_call db)

cache_call-cases :
    {R C : Type 0} (db : FraudDb R C)
    → (cache_call db ≡ (err (internal cache_unavailable), drop_call db))
      ⊎ (cache_call db ≡ (ok tt, drop_call db))
unfolding cache_call
cache_call-cases db = elim (Bool-cases (fails_next db.outages)) [
  | inl out ↦ inl (rw out refl)
  | inr up ↦ inr (rw up refl)
]

-- What holds when the call throws, and when the rest goes on, holds of the whole.
pub after_call :
    {R C A : Type 0} (P : Result A × FraudDb R C → Type 0) (m : Exec (FraudDb R C) A)
    (db : FraudDb R C)
    → P (err (internal cache_unavailable), drop_call db)
    → P (m (drop_call db))
    → P ((cache_call >> m) db)
after_call P m db thrown through = elim (cache_call-cases db) [
  | inl out ↦ subst (λ x. P (resume (λ _. m) x)) (sym out) thrown
  | inr up ↦ subst (λ x. P (resume (λ _. m) x)) (sym up) through
]
