-- ===== src/Exchange/Service.antt =====
-- src/modules/exchange-rates/exchange-rates.service.ts and its entity. The cache is a parameter, under
-- the key `rate:<from>:<to>`, and its calls go through. `randoms` are the results of `Math.random()`
-- in turn, and `to_column` is how Postgres rounds to the scale of the column `rate`. Amounts are
-- natural numbers, spreads are at most 1, and products of rates are exact.
use Prim.Native.String.{◌++◌ as str_append}
use transact_go.Cache.{Cache}
use transact_go.Outcome.{Exec, err, not_found, ok, pure, rate_unavailable, ◌>>=◌, ◌>>◌}
use transact_go.Prelude.{
  Bool, List, Option, String, [], find, if◌then◌else◌, ltb, none, select, some, str_eq, suc, ℕ,
  ◌&&◌, ◌*◌, ◌+◌, ◌-◌, ◌==◌, ◌∷◌,
}
use transact_go.Ratio.{Ratio, floor_mul, mul_ratio}

pub data RateId : Type 0 where
  same_currency : RateId
  rate_row : ℕ → RateId

pub record ExchangeRate : Type 0 where
  pub id : RateId
  pub from_currency : String
  pub to_currency : String
  pub rate : Ratio
  pub spread : Ratio
  pub source : String
  pub valid_at : ℕ
  pub expires_at : ℕ
  pub created_at : ℕ

pub record ConversionResult : Type 0 where
  pub from_amount : ℕ
  pub to_amount : ℕ
  pub from_currency : String
  pub to_currency : String
  pub rate : Ratio
  pub spread : Ratio
  pub effective_rate : Ratio
  pub rate_id : RateId
  pub expires_at : ℕ

pub record MockRate : Type 0 where
  pub from : String
  pub to : String
  pub rate : Ratio

abbrev pub decimal : ℕ → ℕ → Ratio
decimal num den = record { num = num; den = den }

abbrev pair : String → String → ℕ → ℕ → MockRate
pair from to num den = record { from = from; to = to; rate = decimal num den }

abbrev pub mock_rates : List MockRate
mock_rates =
    pair "NGN" "USD" 65 99_999
    ∷ pair "USD" "NGN" 1540 0
    ∷ pair "NGN" "GHS" 75 999
    ∷ pair "GHS" "NGN" 1333 99
    ∷ pair "USD" "GHS" 155 9
    ∷ pair "GHS" "USD" 645 9_999
    ∷ pair "USD" "EUR" 921 999
    ∷ pair "EUR" "USD" 1086 999
    ∷ pair "USD" "GBP" 789 999
    ∷ pair "GBP" "USD" 1268 999
    ∷ pair "NGN" "EUR" 60 99_999
    ∷ pair "EUR" "NGN" 1666 0
    ∷ pair "USD" "KES" 1295 9
    ∷ pair "KES" "USD" 77 9_999
    ∷ []

-- `${fromCurrency}/${toCurrency}`
abbrev pub pair_key : String → String → String
pair_key from to = str_append from (str_append "/" to)

-- `rate:${fromCurrency}:${toCurrency}`
abbrev pub cache_key : String → String → String
cache_key from to = str_append "rate:" (str_append from (str_append ":" to))

abbrev pub mock_rate : String → String → Option MockRate
mock_rate from to = find (λ m. str_eq (pair_key m.from m.to) (pair_key from to)) mock_rates

-- `1 + (Math.random() - 0.5) * 0.01`
abbrev pub jitter : Ratio → Ratio
jitter r = record { num = 199 * suc r.den + 2 * r.num; den = 199 + 200 * r.den }

abbrev pub mock_spread : Ratio
mock_spread = decimal 2 99

abbrev pub one_minus : Ratio → Ratio
one_minus x = record { num = suc x.den - x.num; den = x.den }

abbrev pub identity_rate : String → String → ℕ → ExchangeRate
identity_rate from to now = record {
  id = same_currency;
  from_currency = from;
  to_currency = to;
  rate = decimal 1 0;
  spread = decimal 0 0;
  source = "identity";
  valid_at = now;
  expires_at = now + 86_400_000;
  created_at = now;
}

abbrev pub is_live : ℕ → ExchangeRate → Bool
is_live now x = ltb now x.expires_at

abbrev pub is_pair : String → String → ExchangeRate → Bool
is_pair from to x = str_eq x.from_currency from && str_eq x.to_currency to

-- 0 where the list has ended.
abbrev pub next_random : List Ratio → Ratio
next_random [] = decimal 0 0
next_random (r ∷ _) = r

abbrev pub later_randoms : List Ratio → List Ratio
later_randoms [] = []
later_randoms (_ ∷ rest) = rest

abbrev pub new_rate : String → String → Ratio → Ratio → ℕ → ℕ → ExchangeRate
new_rate from to base random id now = record {
  id = rate_row id;
  from_currency = from;
  to_currency = to;
  rate = mul_ratio base (jitter random);
  spread = mock_spread;
  source = "mock";
  valid_at = now;
  expires_at = now + 300_000;
  created_at = now;
}

abbrev pub base_rate : String → String → Option Ratio
base_rate from to = elim (mock_rate from to) [ none ↦ none | some m ↦ some m.rate ]

abbrev pub effective_rate_of : String → String → ExchangeRate → Ratio
effective_rate_of from to x =
    mul_ratio x.rate (if str_eq from to then decimal 1 0 else one_minus x.spread)

abbrev pub conversion_of : ℕ → String → String → ExchangeRate → ConversionResult
conversion_of amount from to x = record {
  from_amount = amount;
  to_amount = floor_mul amount (effective_rate_of from to x);
  from_currency = from;
  to_currency = to;
  rate = x.rate;
  spread = x.spread;
  effective_rate = effective_rate_of from to x;
  rate_id = x.id;
  expires_at = x.expires_at;
}

module _ (to_column : Ratio → Ratio) (C : Cache String ExchangeRate) where
  pub record RateDb : Type 0 where
    pub rates : List ExchangeRate
    pub next_id : ℕ
    pub now : ℕ
    pub randoms : List Ratio
    pub cache : C.State

  -- `findOne` with the newest row first.
  abbrev pub live_rate : String → String → RateDb → Option ExchangeRate
  live_rate from to db = find (λ x. is_pair from to x && is_live db.now x) db.rates

  abbrev pub set_rate : String → String → ExchangeRate → RateDb → RateDb
  set_rate from to x db = record db { cache = C.set (cache_key from to) x 60_000 db.cache }

  -- `save` returns the entity with the number that it was given, and the row holds the column's.
  abbrev pub upsert_rate : String → String → Ratio → Exec RateDb ExchangeRate
  upsert_rate from to base db =
      let x : ExchangeRate = new_rate from to base (next_random db.randoms) db.next_id db.now in
      (
        ok x,
        set_rate from to x (record db {
          rates = record x { rate = to_column x.rate } ∷ db.rates;
          next_id = db.next_id + 1;
          randoms = later_randoms db.randoms;
        }),
      )

  -- A rate that is missing or 0 is not available.
  unfoldable pub upsert_mock_rate : String → String → Option Ratio → Exec RateDb ExchangeRate
  upsert_mock_rate from to none db = (err (not_found rate_unavailable), db)
  upsert_mock_rate from to (some base) db =
      if base.num == 0 then (err (not_found rate_unavailable), db) else upsert_rate from to base db

  abbrev pub table_or_mock : String → String → Option ExchangeRate → Exec RateDb ExchangeRate
  table_or_mock from to (some x) db = (ok x, set_rate from to x db)
  table_or_mock from to none db = upsert_mock_rate from to (base_rate from to) db

  abbrev pub cached_or_table_rate : String → String → Option ExchangeRate → Exec RateDb ExchangeRate
  cached_or_table_rate from to (some x) db = (ok x, db)
  cached_or_table_rate from to none db = table_or_mock from to (live_rate from to db) db

  unfoldable pub get_rate : String → String → Exec RateDb ExchangeRate
  unfolding upsert_mock_rate
  get_rate from to db =
      if str_eq from to
      then (ok (identity_rate from to db.now), db)
      else cached_or_table_rate from to (C.get (cache_key from to) db.cache) db

  unfoldable pub convert : ℕ → String → String → Exec RateDb ConversionResult
  unfolding get_rate
  convert amount from to = do rate ← get_rate from to; pure (conversion_of amount from to rate)

  abbrev pub refresh_all : List MockRate → Exec RateDb (Unit {0})
  refresh_all [] = pure tt
  refresh_all (m ∷ ms) = do upsert_mock_rate m.from m.to (some m.rate); refresh_all ms

  unfoldable pub refresh_mock_rates : Exec RateDb (Unit {0})
  unfolding upsert_mock_rate
  refresh_mock_rates = refresh_all mock_rates

  -- `by_pair` is the order by both currencies, which the database makes.
  abbrev pub get_all_current_rates :
      (by_pair : List ExchangeRate → List ExchangeRate) → RateDb → List ExchangeRate
  get_all_current_rates by_pair db = by_pair (select (is_live db.now) db.rates)
