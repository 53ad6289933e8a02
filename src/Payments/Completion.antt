-- ===== src/Payments/Completion.antt =====
-- `completeDeposit` of src/modules/payments/payments.service.ts on a pending transfer.
use mathlib.Core.Path.{subst}
use transact_go.Outcome.{Exception, err, in_transaction, ok}
use transact_go.Payments.Deposits.{complete_deposit_skips}
use transact_go.Payments.Service.{
  complete_deposit, complete_found, complete_row, deposit_body, deposit_credit, or_text,
}
use transact_go.Prelude.{String, arith, false, inl, inr, refl, some, sym, true, ℕ, ◌∷◌, ◌≡◌, ◌⊎◌}
use transact_go.Prelude.Int.{int_laws, ◌+ℤ◌, ◌-ℤ◌}
use transact_go.Prelude.Rows.{find_row, find_row-key, find_row-update_self, update_row}
use transact_go.Transfers.Entities.{Transfer, is_pending}
use transact_go.Transfers.Store.{Db, find_transfer, transfer_complete, transfer_received}
use transact_go.Wallets.Effects.{CanCredit, credit-inv, credit-posts, credit_entry_of, post}
use transact_go.Wallets.Entities.{Wallet}
use transact_go.Wallets.Invariant.{IsValid}
use transact_go.Wallets.Movement.{post-total_balance, total_balance}
use transact_go.Wallets.Preserved.{credit-IsValid}
use transact_go.Wallets.Service.{CreditParams}

module _ (t : Transfer) (k : ℕ) (r : String) (db : Db) where
  -- The database after a deposit into the wallet `w` has been committed.
  abbrev pub deposited : Wallet → Db
  deposited w = record db {
    bank =
        post (credit_entry_of (deposit_credit t k r) w db.bank) (w.balance +ℤ (t.amount -ℤ t.fee))
          db.bank;
    transfers = update_row Transfer.id t.id (complete_row r db.bank.now) db.transfers;
  }

  pub deposit_body-inv :
      t.destination_wallet_id ≡ some k
      → ((x : Exception) × (in_transaction (deposit_body t r) db ≡ (err x, db)))
        ⊎ ((w : Wallet) × CanCredit (deposit_credit t k r) db.bank w
            × (in_transaction (deposit_body t r) db ≡ (ok tt, deposited w)))
  unfolding deposit_body
  deposit_body-inv to = elim (credit-inv (deposit_credit t k r) db.bank) [
    | inl (x, refused) ↦ inl (x, ground arith)
    | inr (w, c) ↦ inr (w, c, ground (arith, credit-posts (deposit_credit t k r) db.bank w c))
  ]

  -- The log entries that follow the commit.
  abbrev pub announced : Wallet → Db
  announced w = record (deposited w) {
    notifications =
        transfer_received t.user_id t.amount t.currency (or_text t.provider "unknown")
        ∷ db.notifications;
    audit = transfer_complete t.user_id t.id ∷ db.audit;
  }

  complete_found-inv :
      t.destination_wallet_id ≡ some k
      → ((x : Exception) × (complete_found true t r db ≡ (err x, db)))
        ⊎ ((w : Wallet) × CanCredit (deposit_credit t k r) db.bank w
            × (complete_found true t r db ≡ (ok tt, announced w)))
  unfolding complete_found
  complete_found-inv to = elim (deposit_body-inv to) [
    | inl (x, refused) ↦ inl (x, ground arith)
    | inr (w, c, done) ↦ inr (w, c, ground arith)
  ]

module _ (transfer_id : ℕ) (r : String) (db : Db) (t : Transfer) (k : ℕ)
    (found : find_transfer transfer_id db ≡ some t) (waiting : is_pending t.status ≡ true)
    (to : t.destination_wallet_id ≡ some k) where
  complete_deposit-inv :
      ((x : Exception) × (complete_deposit true transfer_id r db ≡ (err x, db)))
      ⊎ ((w : Wallet) × CanCredit (deposit_credit t k r) db.bank w
          × (complete_deposit true transfer_id r db ≡ (ok tt, announced t k r db w)))
  unfolding complete_deposit
  complete_deposit-inv = elim (complete_found-inv t k r db to) [
    | inl (x, refused) ↦ inl (x, ground arith)
    | inr (w, c, done) ↦ inr (w, c, ground arith)
  ]

  completed_row :
      (w : Wallet) (x : Transfer)
      → find_transfer transfer_id (announced t k r db w) ≡ some x
      → is_pending x.status ≡ false
  completed_row w x f =
      let key : t.id ≡ transfer_id = find_row-key Transfer.id transfer_id db.transfers t found in
      let now : find_transfer transfer_id (announced t k r db w)
          ≡ some (complete_row r db.bank.now t) =
        subst
          (λ j.
            find_row Transfer.id transfer_id
              (update_row Transfer.id j (complete_row r db.bank.now) db.transfers)
            ≡ some (complete_row r db.bank.now t))
          (sym key)
          (find_row-update_self Transfer.id transfer_id (complete_row r db.bank.now) db.transfers t
            (λ u. refl) found) in
      let same : x ≡ complete_row r db.bank.now t = cc (f, now) in rw same refl

  -- While the queues accept jobs, completing a pending deposit into a wallet of a valid bank
  -- either throws and changes nothing, or raises the sum of all balances by the amount less the
  -- fee, keeps the bank valid, and leaves the transfer so that any later call for it changes
  -- nothing.
  pub complete_deposit_once :
      (later : String)
      → IsValid db.bank
      → let (outcome, db') = complete_deposit true transfer_id r db in
        (((x : Exception) × (outcome ≡ err x)) × (db' ≡ db))
        ⊎ ((total_balance db'.bank ≡ total_balance db.bank +ℤ (t.amount -ℤ t.fee))
            × IsValid db'.bank
            × (complete_deposit true transfer_id later db' ≡ (ok tt, db')))
  complete_deposit_once later valid = elim complete_deposit-inv [
    | inl (x, refused) ↦ rw refused (inl ((x, refl), refl))
    | inr (w, c, done) ↦
        let p : CreditParams = deposit_credit t k r in
        rw done (
          inr (
            grind (
              int_laws,
              post-total_balance (credit_entry_of p w db.bank) (w.balance +ℤ p.amount) db.bank w
                  valid.keyed c.found,
            ),
            rw (credit-posts p db.bank w c) at (credit-IsValid p db.bank valid),
            complete_deposit_skips true transfer_id later (announced t k r db w) (completed_row w),
          ))
  ]
