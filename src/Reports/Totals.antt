-- ===== src/Reports/Totals.antt =====
-- The totals of a statement of src/modules/reports/reports.service.ts, and the equation between its
-- four amounts.
use mathlib.Core.List.{reverse, reverse-cons}
use transact_go.Prelude.{
  Bool-cases, List, [], ap, arith, false, inl, inr, leb, not, refl, select, sym, true, ℕ, ◌&&◌,
  ◌++◌, ◌==◌, ◌∙◌, ◌∷◌, ◌≡◌, ◌≤◌,
}
use transact_go.Prelude.Int.{int_laws, neg_part, pos, pos_part, zero_plus, ℤ, ◌+ℤ◌, ◌-ℤ◌}
use transact_go.Prelude.Rows.{sum_by}
use transact_go.Reports.Balance.{at_time, up_to, within}
use transact_go.Reports.Statement.{in_period, is_credit}
use transact_go.Wallets.Entities.{LedgerEntry, credit_entry, debit_entry}

abbrev pub signed : LedgerEntry → ℤ
signed e = elim e.type [ credit_entry ↦ e.amount | debit_entry ↦ pos 0 -ℤ e.amount ]

sum_by-snoc :
    (m : LedgerEntry → ℤ) (l : List LedgerEntry) (e : LedgerEntry)
    → sum_by m (l ++ e ∷ []) ≡ sum_by m l +ℤ m e
sum_by-snoc m [] e = omega int_laws
sum_by-snoc m (x ∷ l) e = rw (sum_by-snoc m l e) (omega int_laws)

pub sum_by-reverse :
    (m : LedgerEntry → ℤ) (l : List LedgerEntry) → sum_by m (reverse l) ≡ sum_by m l
sum_by-reverse m [] = refl
sum_by-reverse m (e ∷ l) =
    rw (reverse-cons e l, sum_by-snoc m (reverse l) e, sum_by-reverse m l) (omega int_laws)

-- Credits less debits are the signed amounts.
pub net_lem :
    (l : List LedgerEntry)
    → sum_by LedgerEntry.amount (select (λ e. is_credit e.type) l)
      ≡ sum_by signed l +ℤ sum_by LedgerEntry.amount (select (λ e. not (is_credit e.type)) l)
net_lem [] = omega int_laws
net_lem (e ∷ l) = grind (int_laws, net_lem l)

pub sum_by-select :
    (k from to : ℕ) (l : List LedgerEntry)
    → sum_by signed (select (in_period k from to) l) ≡ sum_by (within k from to) l
sum_by-select k from to [] = refl
sum_by-select k from to (e ∷ l) =
    let rest : sum_by signed (select (in_period k from to) l) ≡ sum_by (within k from to) l =
      sum_by-select k from to l in
    elim (Bool-cases (leb from e.created_at && leb e.created_at to)) [
      | inr outside ↦ elim (Bool-cases (e.wallet_id == k)) [
        | inl mine ↦ rw (mine, outside) (rest ∙ sym (zero_plus (sum_by (within k from to) l)))
        | inr other ↦ rw (other, outside) (rest ∙ sym (zero_plus (sum_by (within k from to) l)))
      ]
      | inl inside ↦ elim (Bool-cases (e.wallet_id == k)) [
        | inl mine ↦ rw (mine, inside) (ap (λ x. signed e +ℤ x) rest)
        | inr other ↦ rw (other, inside) (rest ∙ sym (zero_plus (sum_by (within k from to) l)))
      ]
    ]

-- An entry at the very start of the period is counted before it and in it.
split_at :
    (k from to : ℕ) (e : LedgerEntry)
    → from ≤ to
    → up_to k to e +ℤ at_time k from e ≡ up_to k from e +ℤ within k from to e
split_at k from to e le = elim (Bool-cases (leb e.created_at from)) [
  | inr after ↦
      let not_at : (e.created_at == from) ≡ false = ground arith in
      let later : leb from e.created_at ≡ true = ground arith in
      rw (after, not_at, later) (omega int_laws)
  | inl early ↦
      let earlier : leb e.created_at to ≡ true = ground arith in
      elim (Bool-cases (e.created_at == from)) [
        | inl at ↦
            let later : leb from e.created_at ≡ true = ground arith in
            rw (early, earlier, at, later) refl
        | inr off ↦
            let before : leb from e.created_at ≡ false = ground arith in
            rw (early, earlier, off, before) refl
      ]
]

pub sum_by-split :
    (k from to : ℕ) (l : List LedgerEntry)
    → from ≤ to
    → sum_by (up_to k to) l +ℤ sum_by (at_time k from) l
      ≡ sum_by (up_to k from) l +ℤ sum_by (within k from to) l
sum_by-split k from to [] le = refl
sum_by-split k from to (e ∷ l) le = omega (
  int_laws,
  ap pos_part (split_at k from to e le),
  ap neg_part (split_at k from to e le),
  ap pos_part (sum_by-split k from to l le),
  ap neg_part (sum_by-split k from to l le),
)
