-- ===== src/Ratio.antt =====
-- Numbers with decimals, which the program keeps in JavaScript numbers and in decimal columns: here
-- quotients of natural numbers, and their products are exact.
use native.Mathlib.Nat.{
  div-mul-le_self, div-le_of_le-mul, le_of_mul-le-mul_left, mul-le-mul, lt-mul-div-succ,
}
use transact_go.Prelude.{Bool, arith, ltb, suc, ℕ, ◌*◌, ◌+◌, ◌/◌, ◌<◌, ◌≤◌}

-- The number `num / (den + 1)`.
pub record Ratio : Type 0 where
  pub num : ℕ
  pub den : ℕ

abbrev pub mul_ratio : Ratio → Ratio → Ratio
mul_ratio x y = record { num = x.num * y.num; den = x.den * y.den + x.den + y.den }

-- `Math.floor(a * x)`
unfoldable pub floor_mul : ℕ → Ratio → ℕ
floor_mul a x = a * x.num / suc x.den

-- `rand > num / den`
abbrev pub above_share : Ratio → ℕ → ℕ → Bool
above_share rand num den = ltb (num * suc rand.den) (den * rand.num)

-- The product of the two numbers is at most 1.
abbrev pub IsLossy : Ratio → Ratio → Type 0
IsLossy x y = x.num * y.num ≤ suc x.den * suc y.den

pub floor_mul-bounds :
    (a : ℕ) (x : Ratio)
    → (floor_mul a x * suc x.den ≤ a * x.num) × (a * x.num < (floor_mul a x + 1) * suc x.den)
unfolding floor_mul
floor_mul-bounds a x = (
  div-mul-le_self (a * x.num) (suc x.den),
  grind (arith, lt-mul-div-succ (a * x.num) {b = suc x.den} (omega arith)),
)

pub floor_mul-floor_mul : (a : ℕ) (x y : Ratio) → IsLossy x y → floor_mul (floor_mul a x) y ≤ a
unfolding floor_mul
floor_mul-floor_mul a x y lossy =
    let b : ℕ = a * x.num / suc x.den in
    let low : b * suc x.den ≤ a * x.num = div-mul-le_self (a * x.num) (suc x.den) in
    let up : b * suc x.den * y.num ≤ a * x.num * y.num = mul-le-mul low (omega arith) in
    let all : a * (x.num * y.num) ≤ a * (suc x.den * suc y.den) = mul-le-mul (omega arith) lossy in
    let scaled : suc x.den * (b * y.num) ≤ suc x.den * (suc y.den * a) = grind arith in
    div-le_of_le-mul (suc y.den) (le_of_mul-le-mul_left scaled (omega arith))
