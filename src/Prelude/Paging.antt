-- ===== src/Prelude/Paging.antt =====
-- The pagination that the services share: `skip = (page - 1) * limit`, `take = limit`, and
-- `pages = Math.ceil(total / limit)`. Pages and limits are natural numbers.
use native.Mathlib.Nat.{zero-mul, suc-mul}
use transact_go.Prelude.{
  List, Option, [], ap, arith, drop, drop-drop, length, none, some, suc, take, take-add, take-all,
  zero, ℕ, ◌*◌, ◌++◌, ◌+◌, ◌-◌, ◌/◌, ◌<◌, ◌≡◌, ◌≤◌,
}

pub record Page (A : Type 0) : Type 0 where
  pub entries : List A
  pub total : ℕ
  pub page : ℕ
  pub pages : ℕ

-- `Math.ceil(n / k)`
abbrev pub ceil_div : ℕ → ℕ → ℕ
ceil_div n k = (n + (k - 1)) / k

-- `findAndCount({ skip, take })` over the rows that the query selects, in its order.
abbrev pub page_of : {A : Type 0} → List A → ℕ → ℕ → Page A
page_of rows page limit = record {
  entries = take limit (drop ((page - 1) * limit) rows);
  total = length rows;
  page = page;
  pages = ceil_div (length rows) limit;
}

-- `x || d` on numbers: a missing value and 0 give the default.
abbrev pub or_default : Option ℕ → ℕ → ℕ
or_default none d = d
or_default (some zero) d = d
or_default (some (suc n)) d = suc n

module _ {A : Type 0} (rows : List A) (limit : ℕ) where
  -- The entries of `n` pages, one after the other, from page `k + 1` on.
  abbrev pub collect : ℕ → ℕ → List A
  collect zero k = []
  collect (suc n) k = (page_of rows (suc k) limit).entries ++ collect n (suc k)

  collect-eq-take : (n k : ℕ) → collect n k ≡ take (n * limit) (drop (k * limit) rows)
  collect-eq-take zero k = rw zero-mul
  collect-eq-take (suc n) k =
      let first : (suc k - 1) * limit ≡ k * limit = ap (λ x. x * limit) (omega arith) in
      rw (first, collect-eq-take n (suc k), suc-mul k limit, suc-mul n limit, ← drop-drop, take-add)
        (ap (λ m. take m (drop (k * limit) rows)) (omega arith))

  ceil_div_covers : (n : ℕ) → 0 < limit → n ≤ ceil_div n limit * limit
  ceil_div_covers n h = grind arith

  -- The pages from the first to the last that is announced hold every row once, in order.
  pub collect_pages : 0 < limit → collect (page_of rows 1 limit).pages 0 ≡ rows
  collect_pages h =
      rw (collect-eq-take (ceil_div (length rows) limit) 0, zero-mul)
        (take-all (ceil_div (length rows) limit * limit) rows (ceil_div_covers (length rows) h))
