-- ===== src/Exchange/Conversion.antt =====
-- Conversions there and back, by src/modules/exchange-rates/exchange-rates.service.ts.
use text.Mathlib.TextPositions.{eq_refl}
use mathlib.Core.Path.{subst}
use native.Mathlib.Nat.{le_of_mul-le-mul_left, mul-le-mul}
-- The products of two rates of the table of mock rates, one for each direction: at most 1.03.
use transact_go.Cache.{Cache}
use transact_go.Exchange.Service.{
  ConversionResult, ExchangeRate, MockRate, RateDb, base_rate, cache_key, conversion_of, convert,
  effective_rate_of, get_rate, identity_rate, jitter, live_rate, mock_rates, mock_spread, new_rate,
  next_random, one_minus, upsert_mock_rate,
}
use transact_go.Outcome.{Result, bind-ok, err, not_found, ok, pure, rate_unavailable, resume}
use transact_go.Prelude.{
  Bool, Bool-cases, List, String, [], ap, arith, false, inl, inr, leb, none, not, refl, some,
  str_eq, suc, sym, true, ℕ, ◌&&◌, ◌*◌, ◌+◌, ◌<◌, ◌==◌, ◌||◌, ◌∙◌, ◌∷◌, ◌≡◌, ◌≤◌,
}
use transact_go.Ratio.{IsLossy, Ratio, floor_mul, floor_mul-floor_mul, mul_ratio}

abbrev pub IsMarketPair : Ratio → Ratio → Type 0
IsMarketPair x y = 100 * (x.num * y.num) ≤ 103 * (suc x.den * suc y.den)

abbrev is_balanced : MockRate → MockRate → Bool
is_balanced m n =
    not (str_eq m.from n.to && str_eq m.to n.from)
    || leb (100 * (m.rate.num * n.rate.num)) (103 * (suc m.rate.den * suc n.rate.den))

abbrev all_of : (MockRate → Bool) → List MockRate → Bool
all_of p [] = true
all_of p (m ∷ ms) = p m && all_of p ms

-- In the table of the source every two rates of opposite directions are balanced.
mock_rates_balanced : all_of (λ m. all_of (is_balanced m) mock_rates) mock_rates ≡ true
mock_rates_balanced = refl

-- A result of `Math.random()` is below 1.
abbrev pub IsRandom : Ratio → Type 0
IsRandom r = r.num ≤ r.den

-- A number is at most 201 / 200 times 98 / 100 of another.
abbrev IsMarkedDown : Ratio → Ratio → Type 0
IsMarkedDown x base = 20_000 * x.num * suc base.den ≤ 19_698 * base.num * suc x.den

le_refl : (n : ℕ) → n ≤ n
le_refl n = omega arith

mock-IsMarkedDown :
    (base r : Ratio)
    → IsRandom r
    → IsMarkedDown (mul_ratio (mul_ratio base (jitter r)) (one_minus mock_spread)) base
mock-IsMarkedDown base r h =
    let up : 199 * suc r.den + 2 * r.num ≤ 201 * suc r.den = omega arith in
    let scaled : base.num * suc base.den * (199 * suc r.den + 2 * r.num)
        ≤ base.num * suc base.den * (201 * suc r.den) =
      mul-le-mul (le_refl (base.num * suc base.den)) up in
    grind arith

-- Two inequalities of products, with the factor that they share cancelled.
chained :
    (p q s t : ℕ) → 0 < s → 400_000_000 * p * s ≤ 388_011_204 * t * q → 100 * t ≤ 103 * s → p ≤ q
chained p q s t pos_s e f =
    let scaled : 100 * t * q ≤ 103 * s * q = mul-le-mul f (le_refl q) in
    let whole : s * (40_000_000_000 * p) ≤ s * (39_965_154_012 * q) = grind arith in
    let cancelled : 40_000_000_000 * p ≤ 39_965_154_012 * q = le_of_mul-le-mul_left whole pos_s in
    omega arith

IsMarkedDown-IsLossy :
    (x y b b' : Ratio) → IsMarkedDown x b → IsMarkedDown y b' → IsMarketPair b b' → IsLossy x y
IsMarkedDown-IsLossy x y b b' hx hy balanced =
    let both : 20_000 * x.num * suc b.den * (20_000 * y.num * suc b'.den)
        ≤ 19_698 * b.num * suc x.den * (19_698 * b'.num * suc y.den) =
      mul-le-mul hx hy in
    chained (x.num * y.num) (suc x.den * suc y.den) (suc b.den * suc b'.den) (b.num * b'.num)
      (grind arith) (grind arith) balanced

module _ (to_column : Ratio → Ratio) (C : Cache String ExchangeRate) where
  conversion-inv :
      (a : ℕ) (f t : String) (y : Result ExchangeRate × RateDb to_column C) (r : ConversionResult)
      → (resume (λ x. pure (conversion_of a f t x)) y).0 ≡ ok r
      → (x : ExchangeRate) × (y.0 ≡ ok x) × (conversion_of a f t x ≡ r)
  conversion-inv a f t (ok x, db) r e = (x, refl, cc e)
  conversion-inv a f t (err x, db) r e = cc e

  convert-inv :
      (a : ℕ) (f t : String) (db : RateDb to_column C) (r : ConversionResult)
      → (convert to_column C a f t db).0 ≡ ok r
      → (x : ExchangeRate) × ((get_rate to_column C f t db).0 ≡ ok x) × (conversion_of a f t x ≡ r)
  unfolding convert
  convert-inv a f t db r e = conversion-inv a f t (get_rate to_column C f t db) r e

  convert-amount :
      (a : ℕ) (f t : String) (db : RateDb to_column C) (r : ConversionResult)
      → (convert to_column C a f t db).0 ≡ ok r
      → r.to_amount ≡ floor_mul a r.effective_rate
  convert-amount a f t db r e =
      let (x, _, same) = convert-inv a f t db r e in
      ap (λ z. z.to_amount) (sym same) ∙ ap (λ z. floor_mul a z.effective_rate) same

  get_rate_same :
      (c : String) (db : RateDb to_column C)
      → get_rate to_column C c c db ≡ (ok (identity_rate c c db.now), db)
  unfolding get_rate
  get_rate_same c db = rw (eq_refl c) refl

  -- A conversion to the same currency returns the amount and changes nothing.
  pub convert_same :
      (a : ℕ) (c : String) (db : RateDb to_column C)
      → (r : ConversionResult) × (convert to_column C a c c db ≡ (ok r, db)) × (r.to_amount ≡ a)
  unfolding convert floor_mul
  convert_same a c db = (
    conversion_of a c c (identity_rate c c db.now),
    bind-ok (get_rate to_column C c c) (λ x. pure (conversion_of a c c x)) (get_rate_same c db),
    rw (eq_refl c) (grind arith),
  )

  -- A conversion there and one back of what it gave, by effective rates whose product is at most 1:
  -- no more comes back than was converted.
  convert-convert :
      (a : ℕ) (f t : String) (db db' : RateDb to_column C) (r r' : ConversionResult)
      → (convert to_column C a f t db).0 ≡ ok r
      → (convert to_column C r.to_amount t f db').0 ≡ ok r'
      → IsLossy r.effective_rate r'.effective_rate
      → r'.to_amount ≤ a
  convert-convert a f t db db' r r' there back lossy =
      rw (convert-amount r.to_amount t f db' r' back, convert-amount a f t db r there)
        (floor_mul-floor_mul a r.effective_rate r'.effective_rate lossy)

  -- Where neither the cache nor the table has a rate, the rate is a fresh one.
  abbrev pub IsCold : String → String → RateDb to_column C → Type 0
  IsCold f t db = (C.get (cache_key f t) db.cache ≡ none) × (live_rate to_column C f t db ≡ none)

  get_rate-fresh :
      (f t : String) (db : RateDb to_column C) (x : ExchangeRate) (base : Ratio)
      → str_eq f t ≡ false
      → IsCold f t db
      → base_rate f t ≡ some base
      → (get_rate to_column C f t db).0 ≡ ok x
      → x ≡ new_rate f t base (next_random db.randoms) db.next_id db.now
  unfolding get_rate upsert_mock_rate
  get_rate-fresh f t db x base apart cold listed e = elim (Bool-cases (base.num == 0)) [
    | inl gone ↦
        let refused : (get_rate to_column C f t db).0 ≡ err (not_found rate_unavailable) =
          rw (apart, cold.0, cold.1, listed, gone) refl in
        cc (e, refused)
    | inr there ↦
        let given : (get_rate to_column C f t db).0
            ≡ ok (new_rate f t base (next_random db.randoms) db.next_id db.now) =
          rw (apart, cold.0, cold.1, listed, there) refl in
        cc (e, given)
  ]

  fresh-IsMarkedDown :
      (a : ℕ) (f t : String) (db : RateDb to_column C) (r : ConversionResult) (base : Ratio)
      → str_eq f t ≡ false
      → IsCold f t db
      → base_rate f t ≡ some base
      → IsRandom (next_random db.randoms)
      → (convert to_column C a f t db).0 ≡ ok r
      → IsMarkedDown r.effective_rate base
  fresh-IsMarkedDown a f t db r base apart cold listed random e =
      let (x, got, same) = convert-inv a f t db r e in
      let fresh : x ≡ new_rate f t base (next_random db.randoms) db.next_id db.now =
        get_rate-fresh f t db x base apart cold listed got in
      let marked : IsMarkedDown
          (effective_rate_of f t (new_rate f t base (next_random db.randoms) db.next_id db.now))
          base =
        rw apart (mock-IsMarkedDown base (next_random db.randoms) random) in
      subst (λ z. IsMarkedDown z base)
        (ap (effective_rate_of f t) (sym fresh) ∙ ap (λ z. z.effective_rate) same) marked

  -- Take two different currencies whose rates are neither cached nor in the table, and rates of the
  -- list of mock rates for both directions whose product is at most 1.03. Whatever the random
  -- numbers, and whenever the second conversion is made: an amount that is converted there and back
  -- does not grow.
  pub convert_back :
      (a : ℕ) (f t : String) (db db' : RateDb to_column C) (r r' : ConversionResult)
      (base base' : Ratio)
      → str_eq f t ≡ false
      → str_eq t f ≡ false
      → IsCold f t db
      → IsCold t f db'
      → base_rate f t ≡ some base
      → base_rate t f ≡ some base'
      → IsMarketPair base base'
      → IsRandom (next_random db.randoms)
      → IsRandom (next_random db'.randoms)
      → (convert to_column C a f t db).0 ≡ ok r
      → (convert to_column C r.to_amount t f db').0 ≡ ok r'
      → r'.to_amount ≤ a
  convert_back a f t db db' r r' base base' apart apart' cold cold' listed listed' balanced random
        random' there back =
      convert-convert a f t db db' r r' there back (
        IsMarkedDown-IsLossy r.effective_rate r'.effective_rate base base'
          (fresh-IsMarkedDown a f t db r base apart cold listed random there)
          (fresh-IsMarkedDown r.to_amount t f db' r' base' apart' cold' listed' random' back)
          balanced)
