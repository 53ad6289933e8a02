-- ===== src/Tests/Exchange.antt =====
-- The theorem on conversions, applied to a thousand naira.
use transact_go.Cache.{Cache}
use transact_go.Exchange.Conversion.{convert_back}
use transact_go.Exchange.Service.{
  ConversionResult, ExchangeRate, RateDb, conversion_of, convert, decimal, get_rate, new_rate,
  upsert_mock_rate,
}
use transact_go.Outcome.{Result}
use transact_go.Prelude.{String, [], arith, refl, ◌∷◌, ◌≤◌}
use transact_go.Ratio.{floor_mul}
use transact_go.Tests.Fixtures.{no_cache}

abbrev no_rates : Cache String ExchangeRate
no_rates = no_cache

abbrev rate_db : RateDb (λ r. r) no_rates
rate_db = record {
  rates = [];
  next_id = 1;
  now = 1000;
  randoms = decimal 1 1 ∷ decimal 2 2 ∷ [];
  cache = tt;
}

abbrev to_dollars : Result ConversionResult × RateDb (λ r. r) no_rates
to_dollars = convert (λ r. r) no_rates 100_000 "NGN" "USD" rate_db

abbrev dollars : ConversionResult
dollars =
    conversion_of 100_000 "NGN" "USD"
      (new_rate "NGN" "USD" (decimal 65 99_999) (decimal 1 1) 1 1000)

abbrev naira : ConversionResult
naira =
    conversion_of dollars.to_amount "USD" "NGN"
      (new_rate "USD" "NGN" (decimal 1540 0) (decimal 2 2) 2 1000)

convert_back_example : naira.to_amount ≤ 100_000
unfolding convert get_rate upsert_mock_rate floor_mul
convert_back_example =
    convert_back (λ r. r) no_rates 100_000 "NGN" "USD" rate_db to_dollars.1 dollars naira
      (decimal 65 99_999) (decimal 1540 0) refl refl (refl, refl) (refl, refl) refl refl
      (omega arith) (omega arith) (omega arith) refl refl
