-- ===== src/Payments/Withdrawals.antt =====
-- `initiateWithdrawal` of src/modules/payments/payments.service.ts on every branch.
use mathlib.Core.Path.{subst}
use transact_go.Fraud.Gate.{FraudGate, asked}
use transact_go.Fraud.Entities.{FraudCheckParams}
use transact_go.Outcome.{
  Exception, column_too_long, access_denied, bad_request, err, forbidden, fraud_blocked,
  in_transaction, internal, not_found, ok, queue_unavailable, user_not_found, wallet_not_found,
}
use transact_go.Payments.Service.{
  InitiateWithdrawalDto, initiate_withdrawal, payment_fee, withdrawal_body, withdrawal_debit,
  withdrawal_row,
}
use transact_go.Prelude.{
  Bool, Bool-cases, List, Option-cases, arith, false, if-false, if-true, if◌then◌else◌, inl, inr,
  none, refl, some, true, ℕ, ◌+◌, ◌==◌, ◌∙◌, ◌∷◌, ◌≡◌, ◌⊎◌,
}
use transact_go.Prelude.Int.{int_laws, ◌+ℤ◌, ◌-ℤ◌}
use transact_go.Prelude.Rows.{IsKeyed}
use transact_go.Transfers.Entities.{Transfer}
use transact_go.Transfers.Service.{FeeSchedule}
use transact_go.Transfers.Store.{
  Db, Evaluation, fits_columns, find_user, process_withdrawal, transfer_init,
}
use transact_go.Users.Entities.{User}
use transact_go.Wallets.Effects.{CanDebit, debit-inv, debit-posts, debit_entry_of, post}
use transact_go.Wallets.Entities.{Wallet}
use transact_go.Wallets.Movement.{post-total_balance, total_balance}
use transact_go.Wallets.Service.{DebitParams, debit, find_wallet}

module _ (fees : FeeSchedule) (gate : FraudGate) (queue_up : Bool) (user : ℕ)
    (dto : InitiateWithdrawalDto) (db : Db) where
  abbrev pub held_debit : DebitParams
  held_debit = withdrawal_debit fees user dto db.next_id

  abbrev pub new_row : Transfer
  new_row = withdrawal_row fees user dto db.next_id db.bank.now

  -- What the fraud service is asked.
  abbrev pub question : User → FraudCheckParams
  question u = record {
    user_id = user;
    amount = dto.amount;
    currency = dto.currency;
    kyc_tier = u.kyc_tier;
    transfer_id = none;
  }

  -- The database after the commit.
  abbrev pub withdrawn : Wallet → User → Db
  withdrawn w u = record (asked (question u) db) {
    bank = post (debit_entry_of held_debit w db.bank) (w.balance -ℤ held_debit.amount) db.bank;
    transfers = new_row ∷ db.transfers;
    next_id = db.next_id + 1;
  }

  -- The database after the job and the audit entry as well.
  abbrev pub submitted : Wallet → User → Db
  submitted w u = record (withdrawn w u) {
    jobs = process_withdrawal db.next_id user dto.amount dto.currency dto.provider ∷ db.jobs;
    audit = transfer_init user db.next_id ∷ db.audit;
  }

  withdrawal_body-ok :
      (w : Wallet) (u : User)
      → fits_columns new_row ≡ true
      → CanDebit held_debit db.bank w
      → in_transaction (withdrawal_body fees user dto) (asked (question u) db)
        ≡ (ok new_row, withdrawn w u)
  unfolding withdrawal_body
  withdrawal_body-ok w u fit c = ground (arith, debit-posts held_debit db.bank w c)

  withdrawal_body-err :
      (x : Exception) (u : User)
      → fits_columns new_row ≡ true
      → debit held_debit db.bank ≡ (err x, db.bank)
      → in_transaction (withdrawal_body fees user dto) (asked (question u) db)
        ≡ (err x, asked (question u) db)
  unfolding withdrawal_body
  withdrawal_body-err x u fit failed = ground arith

  withdrawal_body_long :
      (u : User)
      → fits_columns new_row ≡ false
      → in_transaction (withdrawal_body fees user dto) (asked (question u) db)
        ≡ (err (internal column_too_long), asked (question u) db)
  unfolding withdrawal_body
  withdrawal_body_long u long = ground arith

  -- What was checked before a withdrawal was made.
  pub record Allowed (w : Wallet) (u : User) : Type 0 where
    pub found : find_wallet dto.wallet_id db.bank ≡ some w
    pub owner : w.user_id ≡ user
    pub user_found : find_user user db ≡ some u
    pub unblocked : gate.blocks (question u) db ≡ false
    pub storable : fits_columns new_row ≡ true
    pub debits : CanDebit held_debit db.bank w

  -- It throws, and all that it leaves is what the fraud service was asked.
  abbrev pub Declines : Type 0
  Declines =
      (x : Exception) × (e : List Evaluation) × (initiate_withdrawal fees gate queue_up user dto db
        ≡ (err x, record db { evaluations = e }))

  pub Allowed-submits :
      (w : Wallet) (u : User)
      → Allowed w u
      → initiate_withdrawal fees gate queue_up user dto db ≡ (
          if queue_up
          then (ok new_row, submitted w u)
          else (err (internal queue_unavailable), withdrawn w u))
  unfolding initiate_withdrawal
  Allowed-submits w u a = ground (arith, withdrawal_body-ok w u a.storable a.debits)

  checked_body :
      (w : Wallet) (u : User)
      → find_wallet dto.wallet_id db.bank ≡ some w
      → w.user_id ≡ user
      → find_user user db ≡ some u
      → gate.blocks (question u) db ≡ false
      → Declines ⊎ ((w : Wallet) × (u : User) × Allowed w u)
  unfolding initiate_withdrawal
  checked_body w u found owner user_found unblocked =
      let kept : List Evaluation = (asked (question u) db).evaluations in
      elim (Bool-cases (fits_columns new_row)) [
        | inr long ↦
            inl (internal column_too_long, kept, ground (arith, withdrawal_body_long u long))
        | inl fit ↦ elim (debit-inv held_debit db.bank) [
          | inl (x, failed) ↦ inl (x, kept, ground (arith, withdrawal_body-err x u fit failed))
          | inr (w', c) ↦
              let same : w' ≡ w = cc (c.found, found) in
              inr (
                w,
                u,
                record {
                  found = found;
                  owner = owner;
                  user_found = user_found;
                  unblocked = unblocked;
                  storable = fit;
                  debits = subst (CanDebit held_debit db.bank) same c;
                },
              )
        ]
      ]

  checked :
      (w : Wallet) (u : User)
      → find_wallet dto.wallet_id db.bank ≡ some w
      → find_user user db ≡ some u
      → Declines ⊎ ((w : Wallet) × (u : User) × Allowed w u)
  unfolding initiate_withdrawal
  checked w u found user_found = elim (Bool-cases (w.user_id == user)) [
    | inr stranger ↦ inl (bad_request access_denied, db.evaluations, ground arith)
    | inl owner ↦ elim (Bool-cases (gate.blocks (question u) db)) [
      | inl blocked ↦
          inl (forbidden fraud_blocked, (asked (question u) db).evaluations, ground arith)
      | inr unblocked ↦ checked_body w u found (ground arith) user_found unblocked
    ]
  ]

  -- Either the withdrawal throws before the commit, or all checks held.
  pub initiate_withdrawal-inv : Declines ⊎ ((w : Wallet) × (u : User) × Allowed w u)
  unfolding initiate_withdrawal
  initiate_withdrawal-inv = elim (Option-cases (find_wallet dto.wallet_id db.bank)) [
    | inl missing ↦ inl (not_found wallet_not_found, db.evaluations, ground arith)
    | inr (w, found) ↦ elim (Option-cases (find_user user db)) [
      | inl nobody ↦ elim (Bool-cases (w.user_id == user)) [
        | inr stranger ↦ inl (bad_request access_denied, db.evaluations, ground arith)
        | inl owner ↦ inl (not_found user_not_found, db.evaluations, ground arith)
      ]
      | inr (u, user_found) ↦ checked w u found user_found
    ]
  ]

  withdrawn-total :
      (w : Wallet) (u : User)
      → IsKeyed Wallet.id db.bank.wallets
      → CanDebit held_debit db.bank w
      → total_balance (withdrawn w u).bank +ℤ held_debit.amount ≡ total_balance db.bank
  withdrawn-total w u keyed c = grind (
    int_laws,
    post-total_balance (debit_entry_of held_debit w db.bank) (w.balance -ℤ held_debit.amount)
        db.bank w keyed c.found,
  )

  -- While the queue accepts jobs and no two wallets share a key, a withdrawal either throws and
  -- changes nothing but what the fraud service has been asked and keeps of it, or takes the amount
  -- and the fee out of the sum of all balances, puts exactly one job on the queue, for this transfer
  -- and amount, and returns the transfer, recorded as processing.
  pub initiate_withdrawal_outcome :
      queue_up ≡ true
      → IsKeyed Wallet.id db.bank.wallets
      → let (outcome, db') = initiate_withdrawal fees gate queue_up user dto db in
        (((x : Exception) × (outcome ≡ err x))
          × (db' ≡ record db { evaluations = db'.evaluations }))
        ⊎ ((outcome ≡ ok new_row)
            × (total_balance db'.bank
                  +ℤ (dto.amount
                      +ℤ (payment_fee fees dto.amount dto.currency "withdrawal").total_fee)
                ≡ total_balance db.bank)
            × (db'.transfers ≡ new_row ∷ db.transfers)
            × (db'.jobs
                ≡ process_withdrawal db.next_id user dto.amount dto.currency dto.provider
                  ∷ db.jobs))
  initiate_withdrawal_outcome up keyed = elim initiate_withdrawal-inv [
    | inl (x, e, declined) ↦ rw declined (inl ((x, refl), refl))
    | inr (w, u, a) ↦
        let done : initiate_withdrawal fees gate queue_up user dto db
            ≡ (ok new_row, submitted w u) =
          Allowed-submits w u a
          ∙ if-true queue_up (ok new_row, submitted w u)
              (err (internal queue_unavailable), withdrawn w u) up in
        rw done (inr (refl, withdrawn-total w u keyed a.debits, refl, refl))
  ]

  -- If the queue is down when a withdrawal that passes every check is made, in a bank in which no
  -- two wallets share a key, the caller is told that it failed, no job is there to pay it out, and
  -- yet the amount and the fee have been debited.
  pub initiate_withdrawal_lost :
      (w : Wallet) (u : User)
      → queue_up ≡ false
      → IsKeyed Wallet.id db.bank.wallets
      → Allowed w u
      → let (outcome, db') = initiate_withdrawal fees gate queue_up user dto db in
        (outcome ≡ err (internal queue_unavailable))
        × (db'.jobs ≡ db.jobs)
        × (total_balance db'.bank
              +ℤ (dto.amount +ℤ (payment_fee fees dto.amount dto.currency "withdrawal").total_fee)
            ≡ total_balance db.bank)
  initiate_withdrawal_lost w u down keyed a =
      let done : initiate_withdrawal fees gate queue_up user dto db
          ≡ (err (internal queue_unavailable), withdrawn w u) =
        Allowed-submits w u a
        ∙ if-false queue_up (ok new_row, submitted w u)
            (err (internal queue_unavailable), withdrawn w u) down in
      rw done (refl, refl, withdrawn-total w u keyed a.debits)
