-- ===== src/Transfers/Atomicity.antt =====
-- The transaction of `internalTransfer` of src/modules/transfers/transfers.service.ts and its two
-- outcomes.
use transact_go.Outcome.{Exception, column_too_long, commit, err, internal, in_transaction, ok}
use transact_go.Prelude.{Bool-cases, true, ap, arith, inl, inr, ℕ, ◌+◌, ◌∷◌, ◌≡◌, ◌⊎◌}
use transact_go.Prelude.Int.{◌+ℤ◌, ◌-ℤ◌}
use transact_go.Prelude.Rows.{update_row}
use transact_go.Transfers.Entities.{Transfer}
use transact_go.Transfers.Service.{
  FeeSchedule, InternalTransferDto, completed_at_time, destination_credit, internal_body,
  internal_row, source_debit,
}
use transact_go.Transfers.Store.{Db, fits_columns}
use transact_go.Wallets.Effects.{
  CanCredit, CanDebit, credit-inv, credit-posts, credit_entry_of, debit-inv, debit-posts,
  debit_entry_of, post,
}
use transact_go.Wallets.Entities.{Wallet}
use transact_go.Wallets.Service.{Bank, CreditParams, DebitParams}

module _ (fees : FeeSchedule) (user : ℕ) (dto : InternalTransferDto) (db : Db) where
  abbrev pub debit_of : DebitParams
  debit_of = source_debit fees user dto db.next_id

  abbrev pub credit_of : CreditParams
  credit_of = destination_credit fees dto db.next_id

  -- The bank between the debit and the credit.
  abbrev pub debited : Wallet → Bank
  debited w = post (debit_entry_of debit_of w db.bank) (w.balance -ℤ debit_of.amount) db.bank

  abbrev pub credited : Wallet → Wallet → Bank
  credited w v =
      post (credit_entry_of credit_of v (debited w)) (v.balance +ℤ dto.amount) (debited w)

  abbrev pub row_of : Transfer
  row_of = internal_row fees user dto db.next_id db.bank.now

  abbrev pub settled : Wallet → Wallet → Db
  settled w v = record db {
    bank = credited w v;
    transfers =
        update_row Transfer.id db.next_id (completed_at_time fees db.bank.now)
          (row_of ∷ db.transfers);
    next_id = db.next_id + 1;
  }

  body-posts :
      (w v : Wallet)
      → fits_columns row_of ≡ true
      → CanDebit debit_of db.bank w
      → CanCredit credit_of (debited w) v
      → internal_body fees user dto db
        ≡ (ok (completed_at_time fees db.bank.now row_of), settled w v)
  unfolding internal_body
  body-posts w v fit d c =
      ground (arith, debit-posts debit_of db.bank w d, credit-posts credit_of (debited w) v c)

  -- The transaction is undone as a whole, or both wallets have been written.
  pub body-inv :
      ((x : Exception) × (in_transaction (internal_body fees user dto) db ≡ (err x, db)))
      ⊎ ((w : Wallet) × (v : Wallet) × CanDebit debit_of db.bank w
          × CanCredit credit_of (debited w) v
          × (in_transaction (internal_body fees user dto) db
              ≡ (ok (completed_at_time fees db.bank.now row_of), settled w v)))
  unfolding internal_body
  body-inv = elim (Bool-cases (fits_columns row_of)) [
    | inr long ↦ inl (internal column_too_long, ground arith)
    | inl fit ↦ elim (debit-inv debit_of db.bank) [
      | inl (x, undone) ↦ inl (x, ground arith)
      | inr (w, d) ↦ elim (credit-inv credit_of (debited w)) [
        | inl (x, undone) ↦ inl (x, ground (arith, debit-posts debit_of db.bank w d))
        | inr (v, c) ↦ inr (w, v, d, c, ap (commit db) (body-posts w v fit d c))
      ]
    ]
  ]
