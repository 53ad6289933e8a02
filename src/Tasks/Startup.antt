-- ===== src/Tasks/Startup.antt =====
-- The start of the server and the refreshes in src/modules/queue/queue.module.ts.
use mathlib.Core.Path.{subst}
use transact_go.Cache.{Cache}
use transact_go.Exchange.Service.{
  ExchangeRate, MockRate, RateDb, mock_rates, new_rate, next_random, refresh_all,
  refresh_mock_rates, upsert_mock_rate, upsert_rate,
}
use transact_go.Fees.Rules.{seed_default_rules}
use transact_go.Fees.Seeds.{seed_default_rules_twice}
use transact_go.Fraud.Seeds.{seed_default_fraud_rules_twice}
use transact_go.Fraud.Service.{seed_default_fraud_rules}
use transact_go.Outcome.{bind-ok, ok}
use transact_go.Prelude.{
  All, Bool, List, false, String, [], ap, arith, map, refl, some, sym, true, ◌++◌, ◌<◌, ◌∙◌, ◌∷◌,
  ◌≡◌,
}
use transact_go.Ratio.{Ratio}
use transact_go.Tasks.Service.{StartDb, on_module_init, refresh_exchange_rates}

-- The pairs of a refresh, the newest first, in front of others.
abbrev pub pairs_onto : List MockRate → List (String × String) → List (String × String)
pairs_onto [] pairs = pairs
pairs_onto (m ∷ ms) pairs = pairs_onto ms ((m.from, m.to) ∷ pairs)

-- The pairs after refreshes, each while the database answers or not.
abbrev pub pairs_after : List Bool → List (String × String) → List (String × String)
pairs_after [] pairs = pairs
pairs_after (true ∷ ups) pairs = pairs_after ups (pairs_onto mock_rates pairs)
pairs_after (false ∷ ups) pairs = pairs_after ups pairs

module _ (to_column : Ratio → Ratio) (C : Cache String ExchangeRate) where
  abbrev HasBase : MockRate → Type 0
  HasBase m = 0 < m.rate.num

  upsert_mock_rate-some :
      (m : MockRate) (db : RateDb to_column C)
      → HasBase m
      → upsert_mock_rate to_column C m.from m.to (some m.rate) db
        ≡ upsert_rate to_column C m.from m.to m.rate db
  unfolding upsert_mock_rate
  upsert_mock_rate-some m db h = ground arith

  abbrev pub pair_of : ExchangeRate → String × String
  pair_of x = (x.from_currency, x.to_currency)

  -- New rows of these pairs of currencies stand in front of the rows `base`, which are all there.
  abbrev pub IsGrown : List ExchangeRate → List (String × String) → List ExchangeRate → Type 0
  IsGrown base pairs rows =
      (new : List ExchangeRate) × (rows ≡ new ++ base) × (map pair_of new ≡ pairs)

  upsert_rate-IsGrown :
      (m : MockRate) (base : List ExchangeRate) (pairs : List (String × String))
      (db : RateDb to_column C)
      → IsGrown base pairs db.rates
      → IsGrown base
          ((m.from, m.to) ∷ pairs)
          (upsert_rate to_column C m.from m.to m.rate db).1.rates
  upsert_rate-IsGrown m base pairs db (new, all, same) =
      let x : ExchangeRate =
        new_rate m.from m.to m.rate (next_random db.randoms) db.next_id db.now in
      let stored : ExchangeRate = record x { rate = to_column x.rate } in
      (stored ∷ new, ap (λ t. stored ∷ t) all, ap (λ t. (m.from, m.to) ∷ t) same)

  refresh_all-IsGrown :
      (ms : List MockRate) (base : List ExchangeRate) (pairs : List (String × String))
      (db : RateDb to_column C)
      → All HasBase ms
      → IsGrown base pairs db.rates
      → let (r, db') = refresh_all to_column C ms db in
        (r ≡ ok tt) × IsGrown base (pairs_onto ms pairs) db'.rates
  refresh_all-IsGrown [] base pairs db h grown = (refl, grown)
  refresh_all-IsGrown (m ∷ ms) base pairs db h grown =
      let step =
        bind-ok (upsert_mock_rate to_column C m.from m.to (some m.rate))
          (λ (_ : ExchangeRate). refresh_all to_column C ms) (upsert_mock_rate-some m db h.0) in
      let rest =
        refresh_all-IsGrown ms base ((m.from, m.to) ∷ pairs)
          (upsert_rate to_column C m.from m.to m.rate db).1 h.1
          (upsert_rate-IsGrown m base pairs db grown) in
      (
        ap (λ x. x.0) step ∙ rest.0,
        subst (λ x. IsGrown base (pairs_onto ms ((m.from, m.to) ∷ pairs)) x.1.rates) (sym step)
            rest.1,
      )

  refresh_mock_rates-IsGrown :
      (base : List ExchangeRate) (pairs : List (String × String)) (db : RateDb to_column C)
      → IsGrown base pairs db.rates
      → let (r, db') = refresh_mock_rates to_column C db in
        (r ≡ ok tt) × IsGrown base (pairs_onto mock_rates pairs) db'.rates
  unfolding refresh_mock_rates
  refresh_mock_rates-IsGrown base pairs db grown =
      refresh_all-IsGrown mock_rates base pairs db (omega arith) grown

  module _ {R F : Type 0} where
    -- Refreshes, each while the database answers or not.
    unfoldable pub refresh_times : List Bool → StartDb to_column C R F → StartDb to_column C R F
    refresh_times [] s = s
    refresh_times (up ∷ ups) s = refresh_times ups (refresh_exchange_rates to_column C R F up s)

    refresh_times-rules :
        (ups : List Bool) (s : StartDb to_column C R F)
        → let s' = refresh_times ups s in (s'.fee_rules ≡ s.fee_rules) × (s'.fraud ≡ s.fraud)
    unfolding refresh_times refresh_exchange_rates
    refresh_times-rules [] s = (refl, refl)
    refresh_times-rules (true ∷ ups) s =
        refresh_times-rules ups (refresh_exchange_rates to_column C R F true s)
    refresh_times-rules (false ∷ ups) s = refresh_times-rules ups s

    refresh_times-IsGrown :
        (ups : List Bool) (base : List ExchangeRate) (pairs : List (String × String))
        (s : StartDb to_column C R F)
        → IsGrown base pairs s.rates.rates
        → IsGrown base (pairs_after ups pairs) (refresh_times ups s).rates.rates
    unfolding refresh_times refresh_exchange_rates
    refresh_times-IsGrown [] base pairs s grown = grown
    refresh_times-IsGrown (true ∷ ups) base pairs s grown =
        refresh_times-IsGrown ups base (pairs_onto mock_rates pairs)
          (refresh_exchange_rates to_column C R F true s)
          (refresh_mock_rates-IsGrown base pairs s.rates grown).1
    refresh_times-IsGrown (false ∷ ups) base pairs s grown =
        refresh_times-IsGrown ups base pairs s grown

    -- While the database answers, a start succeeds. Starting again, after any number of refreshes of
    -- which some may have failed, changes no fee rule and no fraud rule. Each of the two starts and
    -- each refresh that did not fail puts new rows into the table of rates, one for each of the
    -- fourteen pairs of currencies of the mock rates in their order, and every row that was there is
    -- still there.
    pub on_module_init_again :
        (ups : List Bool) (s : StartDb to_column C R F)
        → let (r, s1) = on_module_init to_column C R F true s in
          let (r2, s2) = on_module_init to_column C R F true (refresh_times ups s1) in
          (r ≡ ok tt)
          × (r2 ≡ ok tt)
          × (s2.fee_rules ≡ s1.fee_rules)
          × (s2.fraud ≡ s1.fraud)
          × IsGrown s.rates.rates
              (pairs_onto mock_rates (pairs_after ups (pairs_onto mock_rates [])))
              s2.rates.rates
    unfolding on_module_init
    on_module_init_again ups s =
        let s1 = (on_module_init to_column C R F true s).1 in
        let first = refresh_mock_rates-IsGrown s.rates.rates [] s.rates ([], refl, refl) in
        let between =
          refresh_times-IsGrown ups s.rates.rates (pairs_onto mock_rates []) s1 first.1 in
        let again =
          refresh_mock_rates-IsGrown s.rates.rates (pairs_after ups (pairs_onto mock_rates []))
            (refresh_times ups s1).rates between in
        let rules = refresh_times-rules ups s1 in
        (
          first.0,
          again.0,
          ap seed_default_rules rules.0 ∙ seed_default_rules_twice s.fee_rules,
          ap seed_default_fraud_rules rules.1 ∙ seed_default_fraud_rules_twice s.fraud,
          again.1,
        )
