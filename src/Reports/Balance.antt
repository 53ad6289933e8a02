-- ===== src/Reports/Balance.antt =====
-- The statement of src/modules/reports/reports.service.ts against the ledger of the wallet.
use mathlib.Core.List.{reverse, reverse-cons}
use transact_go.Prelude.{
  All, All-map, Bool-cases, List, [], ap, arith, false, if◌then◌else◌, inl, inr, leb, refl, select,
  some, sym, true, ℕ, ◌&&◌, ◌++◌, ◌<◌, ◌==◌, ◌∙◌, ◌∷◌, ◌≡◌, ◌≤◌,
}
use transact_go.Prelude.Int.{int_laws, pos, zero_plus, ℤ, ◌+ℤ◌}
use transact_go.Prelude.Rows.{sum_by}
use transact_go.Reports.History.{IsRunning, IsTimed}
use transact_go.Reports.Statement.{add_up, balance_or, in_period, last_entry, opening_of}
use transact_go.Wallets.Entities.{LedgerEntry}
use transact_go.Wallets.Service.{ledger_balance, signed_amount}

-- The entries of the wallet up to a time, those of a period, and those at one time, in the balance.
abbrev pub up_to : ℕ → ℕ → LedgerEntry → ℤ
up_to k time e = if leb e.created_at time then signed_amount k e else pos 0

abbrev pub within : ℕ → ℕ → ℕ → LedgerEntry → ℤ
within k from to e =
    if leb from e.created_at && leb e.created_at to then signed_amount k e else pos 0

abbrev pub at_time : ℕ → ℕ → LedgerEntry → ℤ
at_time k time e = if e.created_at == time then signed_amount k e else pos 0

sum_by-up_to_whole :
    (k time : ℕ) (l : List LedgerEntry)
    → All (λ e. e.created_at ≤ time) l
    → sum_by (up_to k time) l ≡ ledger_balance k l
sum_by-up_to_whole k time [] h = refl
sum_by-up_to_whole k time (e ∷ l) h =
    let early : leb e.created_at time ≡ true = ground arith in
    rw (early, sum_by-up_to_whole k time l h.1) refl

-- What the query for the opening balance returns is the sum of the entries up to that time.
pub opening_of-eq-sum_by :
    (k time : ℕ) (l : List LedgerEntry)
    → IsRunning l
    → IsTimed l
    → opening_of k time l ≡ sum_by (up_to k time) l
opening_of-eq-sum_by k time [] r t = refl
opening_of-eq-sum_by k time (e ∷ l) r t =
    let rest : opening_of k time l ≡ sum_by (up_to k time) l =
      opening_of-eq-sum_by k time l r.1 t.1 in
    elim (Bool-cases (leb e.created_at time)) [
      | inr later ↦ elim (Bool-cases (e.wallet_id == k)) [
        | inl mine ↦ rw (later, mine) (rest ∙ sym (zero_plus (sum_by (up_to k time) l)))
        | inr other ↦ rw (later, other) (rest ∙ sym (zero_plus (sum_by (up_to k time) l)))
      ]
      | inl early ↦ elim (Bool-cases (e.wallet_id == k)) [
        | inr other ↦ rw (early, other) (rest ∙ sym (zero_plus (sum_by (up_to k time) l)))
        | inl mine ↦
            let same : e.wallet_id ≡ k = ground arith in
            let older : All (λ x. x.created_at ≤ time) l =
              All-map (λ (x : LedgerEntry). x.created_at ≤ e.created_at) (λ x. x.created_at ≤ time)
                l (λ x le. ground arith) t.0 in
            let after : e.balance_after ≡ ledger_balance k (e ∷ l) =
              r.0 ∙ ap (λ j. ledger_balance j (e ∷ l)) same in
            rw (early, mine, sum_by-up_to_whole k time l older) (rw mine at after)
      ]
    ]

-- The balance of the newest entry of the period.
abbrev pub newest : ℤ → List LedgerEntry → ℤ
newest d [] = d
newest d (e ∷ l) = e.balance_after

select-older :
    (k from to time : ℕ) (l : List LedgerEntry)
    → time < from
    → All (λ e. e.created_at ≤ time) l
    → select (in_period k from to) l ≡ []
select-older k from to time [] lt h = refl
select-older k from to time (e ∷ l) lt h =
    let early : leb from e.created_at ≡ false = ground arith in
    let out : in_period k from to e ≡ false = rw early (ground arith) in
    rw (out, select-older k from to time l lt h.1) refl

pub closing_lem :
    (k from to : ℕ) (l : List LedgerEntry)
    → from ≤ to
    → IsTimed l
    → newest (opening_of k from l) (select (in_period k from to) l) ≡ opening_of k to l
closing_lem k from to [] le t = refl
closing_lem k from to (e ∷ l) le t = elim (Bool-cases (e.wallet_id == k)) [
  | inr other ↦ rw other (closing_lem k from to l le t.1)
  | inl mine ↦ elim (Bool-cases (leb e.created_at to)) [
    | inr later ↦
        let also : leb e.created_at from ≡ false = ground arith in
        let out : (leb from e.created_at && false) ≡ false = ground arith in
        rw (mine, later, also, out) (closing_lem k from to l le t.1)
    | inl early ↦ elim (Bool-cases (leb from e.created_at)) [
      | inl inside ↦ rw (mine, early, inside) refl
      | inr before ↦
          let older : leb e.created_at from ≡ true = ground arith in
          let none_left : select (in_period k from to) l ≡ [] =
            select-older k from to e.created_at l (ground arith) t.0 in
          rw (mine, early, before, older, none_left) refl
    ]
  ]
]

-- Over the entries in ascending order.
last_entry-snoc : (l : List LedgerEntry) (e : LedgerEntry) → last_entry (l ++ e ∷ []) ≡ some e
last_entry-snoc [] e = refl
last_entry-snoc (x ∷ l) e = rw (last_entry-snoc l e) refl

pub last_entry-reverse :
    (d : ℤ) (l : List LedgerEntry) → balance_or d (last_entry (reverse l)) ≡ newest d l
last_entry-reverse d [] = refl
last_entry-reverse d (e ∷ l) = rw (reverse-cons e l, last_entry-snoc (reverse l) e) refl

pub add_up-eq : (acc : ℤ) (l : List LedgerEntry) → add_up acc l ≡ acc +ℤ sum_by LedgerEntry.amount l
add_up-eq acc [] = omega int_laws
add_up-eq acc (e ∷ l) = rw (add_up-eq (acc +ℤ e.amount) l) (omega int_laws)
