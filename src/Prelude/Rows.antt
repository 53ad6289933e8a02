-- ===== src/Prelude/Rows.antt =====
-- Tables. A table is the list of its rows, the newest first, and a row has a numeric primary key
-- (the uuids of the program are only compared). `findOne` by primary key is `find_row`, an
-- `UPDATE … WHERE id = k` is `update_row`, and `SUM` over the rows is `sum_by`.
use Prim.Native.Nat.{ℕ}
use mathlib.Core.Path.{◌≡◌, refl}
use mathlib.Core.Logic.{◌≢◌, inl, inr}
use mathlib.Core.Bool.{Bool, true}
use mathlib.Core.Option.{Option, none, some}
use mathlib.Core.List.{List, [], ◌∷◌}
use native.Mathlib.Omega.{arith}
use transact_go.Prelude.Tests.{◌==◌, if◌then◌else◌, Bool-cases}
use transact_go.Prelude.Lists.{All, find}
use transact_go.Prelude.Int.{ℤ, pos, ◌+ℤ◌, int_laws}

module _ {V : Type 0} where
  abbrev pub sum_by : (V → ℤ) → List V → ℤ
  sum_by m [] = pos 0
  sum_by m (v ∷ t) = m v +ℤ sum_by m t

module _ {V : Type 0} (key : V → ℕ) where
  abbrev pub find_row : ℕ → List V → Option V
  find_row k [] = none
  find_row k (v ∷ t) = if key v == k then some v else find_row k t

  abbrev pub update_row : ℕ → (V → V) → List V → List V
  update_row k f [] = []
  update_row k f (v ∷ t) = (if key v == k then f v else v) ∷ update_row k f t

  -- No two rows share a primary key.
  abbrev pub IsKeyed : List V → Type 0
  IsKeyed [] = Unit
  IsKeyed (v ∷ t) = (find_row (key v) t ≡ none) × IsKeyed t

  pub find_row-key : (k : ℕ) (t : List V) (v : V) → find_row k t ≡ some v → key v ≡ k
  find_row-key k [] v e = cc
  find_row-key k (u ∷ t) v e = ground (arith, find_row-key k t v)

  pub find_row-update_none :
      (j k : ℕ) (f : V → V) (t : List V)
      → ((v : V) → key (f v) ≡ key v)
      → find_row j t ≡ none
      → find_row j (update_row k f t) ≡ none
  find_row-update_none j k f [] keep e = refl
  find_row-update_none j k f (v ∷ t) keep e =
      ground (arith, keep v, find_row-update_none j k f t keep)

  pub find_row-update_ne :
      (j k : ℕ) (f : V → V) (t : List V)
      → ((v : V) → key (f v) ≡ key v)
      → j ≢ k
      → find_row j (update_row k f t) ≡ find_row j t
  find_row-update_ne j k f [] keep ne = refl
  find_row-update_ne j k f (v ∷ t) keep ne =
      ground (arith, keep v, find_row-update_ne j k f t keep ne)

  pub find_row-update_self :
      (k : ℕ) (f : V → V) (t : List V) (v : V)
      → ((u : V) → key (f u) ≡ key u)
      → find_row k t ≡ some v
      → find_row k (update_row k f t) ≡ some (f v)
  find_row-update_self k f [] v keep e = cc
  find_row-update_self k f (u ∷ t) v keep e =
      ground (arith, keep u, find_row-update_self k f t v keep)

  pub update_row-none :
      (k : ℕ) (f : V → V) (t : List V) → find_row k t ≡ none → update_row k f t ≡ t
  update_row-none k f [] e = refl
  update_row-none k f (v ∷ t) e = ground (arith, update_row-none k f t)

  pub update_row-IsKeyed :
      (k : ℕ) (f : V → V) (t : List V)
      → ((v : V) → key (f v) ≡ key v)
      → IsKeyed t
      → IsKeyed (update_row k f t)
  update_row-IsKeyed k f [] keep h = tt
  update_row-IsKeyed k f (v ∷ t) keep h =
      ground (arith, keep v, find_row-update_none (key v) k f t keep, update_row-IsKeyed k f t keep)

  -- The sum moves by what the one row that is updated moves.
  pub sum_by-update :
      (m : V → ℤ) (k : ℕ) (f : V → V) (t : List V) (v : V)
      → IsKeyed t
      → find_row k t ≡ some v
      → sum_by m (update_row k f t) +ℤ m v ≡ sum_by m t +ℤ m (f v)
  sum_by-update m k f [] v h e = cc
  sum_by-update m k f (u ∷ t) v h e = elim (Bool-cases (key u == k)) [
    | inl here ↦
        let found : u ≡ v = ground arith in
        let rest : update_row k f t ≡ t = update_row-none k f t (ground arith) in
        rw (here, rest, found) (omega int_laws)
    | inr later ↦ rw later (grind (int_laws, sum_by-update m k f t v h.1 (ground arith)))
  ]

  -- A property of every row is one of the row that is found.
  pub All-find_row :
      (P : V → Type 0) (k : ℕ) (t : List V) (v : V) → All P t → find_row k t ≡ some v → P v
  All-find_row P k [] v h e = cc
  All-find_row P k (u ∷ t) v h e = elim (Bool-cases (key u == k)) [
    | inl here ↦ let found : u ≡ v = ground arith in rw found at h.0
    | inr later ↦ All-find_row P k t v h.1 (ground arith)
  ]

  -- Where no row has the key, every row is one of the others.
  All-others :
      (P Q : V → Type 0) (k : ℕ) (t : List V)
      → ((v : V) → key v ≢ k → P v → Q v)
      → find_row k t ≡ none
      → All P t
      → All Q t
  All-others P Q k [] others e h = tt
  All-others P Q k (v ∷ t) others e h =
      (others v (ground arith) h.0, All-others P Q k t others (ground arith) h.1)

  -- A property of every row survives an update that keeps it at the row updated, where the other
  -- rows pass from `P` to `Q`.
  pub All-update_row :
      (P Q : V → Type 0) (k : ℕ) (f : V → V) (t : List V)
      → ((v : V) → key v ≡ k → find_row k t ≡ some v → P v → Q (f v))
      → ((v : V) → key v ≢ k → P v → Q v)
      → IsKeyed t
      → All P t
      → All Q (update_row k f t)
  All-update_row P Q k f [] at_key others keyed h = tt
  All-update_row P Q k f (u ∷ t) at_key others keyed h = elim (Bool-cases (key u == k)) [
    | inl here ↦
        let same : key u ≡ k = ground arith in
        let none_left : find_row k t ≡ none = rw same at keyed.0 in
        rw here (
          at_key u same (rw here) h.0,
          rw (update_row-none k f t none_left) (All-others P Q k t others none_left h.1),
        )
    | inr later ↦
        let differs : key u ≢ k = ground arith in
        rw later (
          others u differs h.0,
          All-update_row P Q k f t (λ v e r. at_key v e (rw later r)) others keyed.1 h.1,
        )
  ]

  -- In a keyed table, a row that any test finds is found by its key.
  pub find_row-find :
      (p : V → Bool) (t : List V) (v : V)
      → IsKeyed t
      → find p t ≡ some v
      → find_row (key v) t ≡ some v
  find_row-find p [] v h e = cc
  find_row-find p (u ∷ t) v h e = elim (Bool-cases (p u)) [
    | inl here ↦
        let same : u ≡ v = ground arith in
        let self : (key v == key v) ≡ true = ground arith in rw (same, self) refl
    | inr later ↦
        let rest : find_row (key v) t ≡ some v = find_row-find p t v h.1 (ground arith) in
        elim (Bool-cases (key u == key v)) [
          | inl clash ↦ let same_key : key u ≡ key v = ground arith in cc (h.0, rest, same_key)
          | inr apart ↦ rw apart rest
        ]
  ]
