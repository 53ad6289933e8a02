-- ===== src/Transfers/Conservation.antt =====
-- What an internal transfer of src/modules/transfers/transfers.service.ts does to the money.
use mathlib.Core.Path.{subst}
use transact_go.Outcome.{Exception, err, ok}
use transact_go.Prelude.{arith, inl, inr, refl, some, sym, ℕ, ◌∙◌, ◌≡◌, ◌≢◌, ◌⊎◌}
use transact_go.Prelude.Int.{int_laws, ℤ, ◌+ℤ◌, ◌-ℤ◌}
use transact_go.Prelude.Rows.{IsKeyed, find_row-key, update_row-IsKeyed}
use transact_go.Transfers.Atomicity.{
  body-inv, credit_of, credited, debit_of, debited, row_of, settled,
}
use transact_go.Transfers.Entities.{Transfer}
use transact_go.Transfers.Service.{
  FeeSchedule, InternalTransferDto, completed_at_time, internal_fee, internal_transfer,
}
use transact_go.Transfers.Store.{Db}
use transact_go.Transfers.Validation.{Validated, validate_internal-inv}
use transact_go.Users.Entities.{User}
use transact_go.Wallets.Effects.{
  CanCredit, CanDebit, credit-posts, credit_entry_of, debit-posts, debit_entry_of,
}
use transact_go.Wallets.Entities.{LedgerEntry, Wallet}
use transact_go.Wallets.Invariant.{IsValid}
use transact_go.Wallets.Movement.{
  post-find_wallet, post-find_wallet_self, post-total_balance, total_balance,
}
use transact_go.Wallets.Preserved.{credit-IsValid, debit-IsValid}
use transact_go.Wallets.Service.{Bank, CreditParams, DebitParams, find_wallet}

module _ (fees : FeeSchedule) (start_of_day : ℕ → ℕ) (user : ℕ) (dto : InternalTransferDto)
    (db : Db) where
  -- Either the transfer throws and the database is as before, or the checks held, both wallets were
  -- written and the transfer is recorded as completed.
  pub internal_transfer-inv :
      ((x : Exception) × (internal_transfer fees start_of_day user dto db ≡ (err x, db)))
      ⊎ ((w : Wallet) × (v : Wallet) × (d : Wallet) × (u : User) × Validated start_of_day user dto
            db w d u
          × CanDebit (debit_of fees user dto db) db.bank w
          × CanCredit (credit_of fees user dto db) (debited fees user dto db w) v
          × (internal_transfer fees start_of_day user dto db ≡ (
            ok (completed_at_time fees db.bank.now (row_of fees user dto db)),
            settled fees user dto db w v,
          )))
  unfolding internal_transfer
  internal_transfer-inv = elim (validate_internal-inv start_of_day user dto db) [
    | inl (x, refused) ↦ inl (x, ground arith)
    | inr (s, d, u, checks, passed) ↦ elim (body-inv fees user dto db) [
      | inl (x, undone) ↦ inl (x, ground arith)
      | inr (w, v, debits, credits, done) ↦
          let same : s ≡ w = cc (checks.source_found, debits.found) in
          inr (
            w,
            v,
            d,
            u,
            subst (λ x. Validated start_of_day user dto db x d u) same checks,
            debits,
            credits,
            ground arith,
          )
    ]
  ]

  -- An internal transfer that throws, in the checks or within the transaction, leaves the database
  -- as it was.
  pub internal_transfer_atomic :
      (x : Exception) (db' : Db)
      → internal_transfer fees start_of_day user dto db ≡ (err x, db')
      → db' ≡ db
  internal_transfer_atomic x db' e = elim internal_transfer-inv [
    | inl (y, refused) ↦ cc (e, refused)
    | inr r ↦ cc (e, r.7)
  ]

  credited-IsValid :
      (w v : Wallet)
      → CanDebit (debit_of fees user dto db) db.bank w
      → CanCredit (credit_of fees user dto db) (debited fees user dto db w) v
      → IsValid db.bank
      → IsValid (credited fees user dto db w v)
  credited-IsValid w v debits credits h =
      let first : IsValid (debited fees user dto db w) =
        rw (debit-posts (debit_of fees user dto db) db.bank w debits) at
          (debit-IsValid (debit_of fees user dto db) db.bank h) in
      rw (credit-posts (credit_of fees user dto db) (debited fees user dto db w) v credits) at
        (credit-IsValid (credit_of fees user dto db) (debited fees user dto db w) first)

  -- An internal transfer, whether it returns or throws, keeps a valid bank valid: no balance falls
  -- below what is held, and every balance is still the sum of its ledger.
  pub internal_transfer-IsValid :
      IsValid db.bank → IsValid (internal_transfer fees start_of_day user dto db).1.bank
  internal_transfer-IsValid h = elim internal_transfer-inv [
    | inl (y, refused) ↦ rw refused h
    | inr (w, v, d, u, checks, debits, credits, done) ↦
        rw done (credited-IsValid w v debits credits h)
  ]

  -- What a transfer that returns has done, and to which wallets.
  pub record Settles (db' : Db) : Type 0 where
    pub source : Wallet
    pub destination : Wallet
    pub source_found : find_wallet dto.source_wallet_id db.bank ≡ some source
    pub destination_found : find_wallet dto.destination_wallet_id db.bank ≡ some destination
    pub owner : source.user_id ≡ user
    pub source_after :
        find_wallet dto.source_wallet_id db'.bank
        ≡ some (record source {
          balance = source.balance -ℤ (dto.amount +ℤ (internal_fee fees dto).total_fee);
        })
    pub destination_after :
        find_wallet dto.destination_wallet_id db'.bank
        ≡ some (record destination { balance = destination.balance +ℤ dto.amount })
    pub others :
        (j : ℕ)
        → j ≢ dto.source_wallet_id
        → j ≢ dto.destination_wallet_id
        → find_wallet j db'.bank ≡ find_wallet j db.bank
    pub total : total_balance db'.bank +ℤ (internal_fee fees dto).total_fee ≡ total_balance db.bank

  distinct_wallets :
      (w v d : Wallet) (u : User)
      → Validated start_of_day user dto db w d u
      → CanDebit (debit_of fees user dto db) db.bank w
      → CanCredit (credit_of fees user dto db) (debited fees user dto db w) v
      → (dto.destination_wallet_id ≢ dto.source_wallet_id)
        × (find_wallet dto.destination_wallet_id db.bank ≡ some v)
  distinct_wallets w v d u checks debits credits =
      let source_key : w.id ≡ dto.source_wallet_id =
        find_row-key Wallet.id dto.source_wallet_id db.bank.wallets w checks.source_found in
      let destination_key : d.id ≡ dto.destination_wallet_id =
        find_row-key Wallet.id dto.destination_wallet_id db.bank.wallets d
          checks.destination_found in
      let apart : dto.destination_wallet_id ≢ dto.source_wallet_id =
        λ e. checks.distinct (source_key ∙ sym e ∙ sym destination_key) in
      (
        apart,
        sym (
              post-find_wallet dto.destination_wallet_id
                (debit_entry_of (debit_of fees user dto db) w db.bank)
                (w.balance -ℤ (debit_of fees user dto db).amount) db.bank apart)
            ∙ credits.found,
      )

  settled-Settles :
      (w v d : Wallet) (u : User)
      → IsKeyed Wallet.id db.bank.wallets
      → Validated start_of_day user dto db w d u
      → CanDebit (debit_of fees user dto db) db.bank w
      → CanCredit (credit_of fees user dto db) (debited fees user dto db w) v
      → Settles (settled fees user dto db w v)
  settled-Settles w v d u keyed checks debits credits =
      let (apart, there) = distinct_wallets w v d u checks debits credits in
      let p : DebitParams = debit_of fees user dto db in
      let c : CreditParams = credit_of fees user dto db in
      let b1 : Bank = debited fees user dto db w in
      let e : LedgerEntry = debit_entry_of p w db.bank in
      let f : LedgerEntry = credit_entry_of c v b1 in
      let low : ℤ = w.balance -ℤ p.amount in
      let high : ℤ = v.balance +ℤ dto.amount in
      let keyed1 : IsKeyed Wallet.id b1.wallets =
        update_row-IsKeyed Wallet.id dto.source_wallet_id (λ x. record x { balance = low })
          db.bank.wallets (λ x. refl) keyed in
      record {
        source = w;
        destination = v;
        source_found = checks.source_found;
        destination_found = there;
        owner = checks.owner;
        source_after =
            post-find_wallet dto.source_wallet_id f high b1 (λ x. apart (sym x))
            ∙ post-find_wallet_self e low db.bank w debits.found;
        destination_after = post-find_wallet_self f high b1 v credits.found;
        others =
            λ j ne1 ne2. post-find_wallet j f high b1 ne2 ∙ post-find_wallet j e low db.bank ne1;
        total = grind (
          int_laws,
          post-total_balance e low db.bank w keyed debits.found,
          post-total_balance f high b1 v keyed1 credits.found,
        );
      }

  -- In a bank in which no two wallets share a key, an internal transfer that returns takes the
  -- amount and the fee from the source wallet, which belongs to the user, adds the amount to the
  -- destination, touches no other wallet, and lowers the sum of all balances by exactly the fee.
  pub internal_transfer-Settles :
      (t : Transfer) (db' : Db)
      → IsKeyed Wallet.id db.bank.wallets
      → internal_transfer fees start_of_day user dto db ≡ (ok t, db')
      → Settles db'
  internal_transfer-Settles t db' keyed e = elim internal_transfer-inv [
    | inl (y, refused) ↦ cc (e, refused)
    | inr (w, v, d, u, checks, debits, credits, done) ↦
        let after : db' ≡ settled fees user dto db w v = cc (e, done) in
        rw after (settled-Settles w v d u keyed checks debits credits)
  ]
