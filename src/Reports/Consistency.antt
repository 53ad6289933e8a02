-- ===== src/Reports/Consistency.antt =====
-- The statement of src/modules/reports/reports.service.ts for a bank with any history.
use mathlib.Core.List.{reverse}
use mathlib.Core.Path.{subst}
use transact_go.Outcome.{err, internal, ok, wallet_not_found}
use transact_go.Prelude.{
  List, Option-cases, ap, arith, find-true, inl, inr, not, refl, select, sym, true, ℕ, ◌&&◌, ◌==◌,
  ◌∙◌, ◌≡◌, ◌≤◌,
}
use transact_go.Prelude.Int.{int_laws, neg_part, pos, pos_part, ℤ, ◌+ℤ◌}
use transact_go.Prelude.Rows.{sum_by}
use transact_go.Reports.Balance.{
  add_up-eq, at_time, closing_lem, last_entry-reverse, opening_of-eq-sum_by, up_to, within,
}
use transact_go.Reports.History.{
  IsHistory, Moment, empty_bank-IsHistory, live_all, live_all-IsHistory,
}
use transact_go.Reports.Statement.{
  AccountStatement, add_up, balance_or, generate_statement, in_period, is_credit, last_entry,
  opening_of, owned_wallet, statement_of,
}
use transact_go.Reports.Totals.{net_lem, signed, sum_by-reverse, sum_by-select, sum_by-split}
use transact_go.Wallets.Entities.{LedgerEntry, Wallet}
use transact_go.Wallets.Preserved.{empty_bank}
use transact_go.Wallets.Service.{Bank}

-- What the amounts of a statement are, for the wallet `k` and the period.
pub record IsBalanced (k from to : ℕ) (l : List LedgerEntry) (s : AccountStatement) : Type 0 where
  pub wallet : s.wallet_id ≡ k
  pub opening : s.opening_balance ≡ sum_by (up_to k from) l
  pub closing : s.closing_balance ≡ sum_by (up_to k to) l
  pub moved :
      s.opening_balance +ℤ s.total_credits
      ≡ s.closing_balance +ℤ s.total_debits +ℤ sum_by (at_time k from) l

moved_lem :
    (opening closing credits debits inside at before after : ℤ)
    → opening ≡ before
    → closing ≡ after
    → credits ≡ inside +ℤ debits
    → after +ℤ at ≡ before +ℤ inside
    → opening +ℤ credits ≡ closing +ℤ debits +ℤ at
moved_lem opening closing credits debits inside at before after o c d split =
    rw (o, c, d) (omega (int_laws, ap pos_part split, ap neg_part split))

statement_of-IsBalanced :
    (w : Wallet) (from to : ℕ) (b : Bank)
    → from ≤ to
    → IsHistory b
    → IsBalanced w.id from to b.ledger (statement_of w from to b)
statement_of-IsBalanced w from to b le h =
    let picked : List LedgerEntry = select (in_period w.id from to) b.ledger in
    let opening : opening_of w.id from b.ledger ≡ sum_by (up_to w.id from) b.ledger =
      opening_of-eq-sum_by w.id from b.ledger h.running h.timed in
    let closing : balance_or (opening_of w.id from b.ledger) (last_entry (reverse picked))
        ≡ sum_by (up_to w.id to) b.ledger =
      last_entry-reverse (opening_of w.id from b.ledger) picked
      ∙ closing_lem w.id from to b.ledger le h.timed
      ∙ opening_of-eq-sum_by w.id to b.ledger h.running h.timed in
    let credits = add_up (pos 0) (select (λ e. is_credit e.type) (reverse picked)) in
    let debits = add_up (pos 0) (select (λ e. not (is_credit e.type)) (reverse picked)) in
    let net : credits ≡ sum_by (within w.id from to) b.ledger +ℤ debits =
      rw
        (
          add_up-eq (pos 0) (select (λ e. is_credit e.type) (reverse picked)),
          add_up-eq (pos 0) (select (λ e. not (is_credit e.type)) (reverse picked)),
          net_lem (reverse picked),
          sum_by-reverse signed picked,
          sum_by-select w.id from to b.ledger,
        )
        (omega int_laws) in
    record {
      wallet = refl;
      opening = opening;
      closing = closing;
      moved =
          moved_lem (opening_of w.id from b.ledger)
            (balance_or (opening_of w.id from b.ledger) (last_entry (reverse picked))) credits
            debits (sum_by (within w.id from to) b.ledger) (sum_by (at_time w.id from) b.ledger)
            (sum_by (up_to w.id from) b.ledger) (sum_by (up_to w.id to) b.ledger) opening closing
            net (sum_by-split w.id from to b.ledger le);
    }

-- A statement that returns is the one of a wallet with the key and the owner that were asked for.
generate_statement-inv :
    (k user from to : ℕ) (b b' : Bank) (s : AccountStatement)
    → generate_statement k user from to b ≡ (ok s, b')
    → (w : Wallet) × (w.id ≡ k) × (w.user_id ≡ user) × (s ≡ statement_of w from to b) × (b' ≡ b)
unfolding generate_statement
generate_statement-inv k user from to b b' s e = elim (Option-cases (owned_wallet k user b)) [
  | inl missing ↦
      let refused : (err (internal wallet_not_found), b) ≡ (ok s, b') = rw missing at e in
      cc refused
  | inr (w, found) ↦
      let passed : (w.id == k && w.user_id == user) ≡ true =
        find-true (λ w. w.id == k && w.user_id == user) b.wallets w found in
      let key : w.id ≡ k = ground arith in
      let owner : w.user_id ≡ user = ground arith in
      let done : (ok (statement_of w from to b), b) ≡ (ok s, b') = rw found at e in
      (w, key, owner, cc done, cc done)
]

-- Whatever has happened to the bank before, a statement that returns is of the wallet asked for, its
-- opening balance is the sum of the wallet's ledger up to and with the start of the period, its
-- closing balance the sum up to and with the end, and the opening balance and the credits are the
-- closing balance and the debits, with the entries made at the very start counted once more.
pub generate_statement-IsBalanced :
    (ms : List Moment) (k user from to : ℕ) (s : AccountStatement) (b' : Bank)
    → from ≤ to
    → generate_statement k user from to (live_all ms empty_bank) ≡ (ok s, b')
    → IsBalanced k from to (live_all ms empty_bank).ledger s
generate_statement-IsBalanced ms k user from to s b' le e =
    let b : Bank = live_all ms empty_bank in
    let (w, key, owner, same, unchanged) = generate_statement-inv k user from to b b' s e in
    subst (λ j. IsBalanced j from to b.ledger s) key
      (subst (IsBalanced w.id from to b.ledger) (sym same) (
        statement_of-IsBalanced w from to b le
          (live_all-IsHistory ms empty_bank empty_bank-IsHistory)))
