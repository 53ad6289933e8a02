-- ===== src/Wallets/Service.antt =====
-- src/modules/wallets/wallets.service.ts. `Bank` is the state that the service owns: the tables
-- `wallets` and `ledger_entries`, the next unused key and the clock. A row lock makes the read and
-- the write of `debit` and `credit` one step, so each is one action on the state.
use transact_go.Outcome.{
  Exec, access_denied, bad_request, credit_not_positive, debit_not_positive, err, forbidden, gets,
  insufficient_funds, internal, modify, not_found, ok, or_throw, pure, throw_if, wallet_closed,
  wallet_exists, wallet_not_active, wallet_not_found, ◌>>=◌, ◌>>◌,
}
use transact_go.Prelude.{
  Bool, List, Option, String, find, if◌then◌else◌, is_some, none, not, str_eq, ℕ, ◌&&◌, ◌+◌, ◌==◌,
  ◌∷◌,
}
use transact_go.Prelude.Int.{eqb_ℤ, leb_ℤ, ltb_ℤ, pos, ℤ, ◌+ℤ◌, ◌-ℤ◌}
use transact_go.Prelude.Rows.{find_row, sum_by, update_row}
use transact_go.Wallets.Entities.{
  Currency, EntryCategory, LedgerEntry, Narration, Wallet, active, code, credit_entry, debit_entry,
  is_active, is_closed,
}

pub record Bank : Type 0 where
  pub wallets : List Wallet
  pub ledger : List LedgerEntry
  pub next_id : ℕ
  pub now : ℕ

pub record DebitParams : Type 0 where
  pub wallet_id : ℕ
  pub user_id : ℕ
  pub amount : ℤ
  pub category : EntryCategory
  pub narration : Narration
  pub transfer_id : Option ℕ
  pub provider_reference : Option String

pub record CreditParams : Type 0 where
  pub wallet_id : ℕ
  pub amount : ℤ
  pub category : EntryCategory
  pub narration : Narration
  pub transfer_id : Option ℕ
  pub provider_reference : Option String

abbrev pub find_wallet : ℕ → Bank → Option Wallet
find_wallet k b = find_row Wallet.id k b.wallets

-- `manager.update(Wallet, walletId, { balance })`
abbrev pub set_balance : ℕ → ℤ → Bank → Bank
set_balance k v b = record b {
  wallets = update_row Wallet.id k (λ w. record w { balance = v }) b.wallets;
}

-- `manager.save(LedgerEntry, entry)`: the database gives the key and the time.
abbrev pub save_entry : (ℕ → ℕ → LedgerEntry) → Exec Bank LedgerEntry
save_entry make b =
    let entry : LedgerEntry = make b.next_id b.now in
    (ok entry, record b { ledger = entry ∷ b.ledger; next_id = b.next_id + 1 })

abbrev pub owns_currency : ℕ → Currency → Wallet → Bool
owns_currency user currency w = w.user_id == user && str_eq (code w.currency) (code currency)

unfoldable pub create_wallet : ℕ → Currency → Exec Bank Wallet
create_wallet user_id currency b =
    if is_some (find (owns_currency user_id currency) b.wallets)
    then (err (bad_request wallet_exists), b)
    else let saved : Wallet = record {
      id = b.next_id;
      user_id = user_id;
      currency = currency;
      balance = pos 0;
      held_balance = pos 0;
      status = active;
      label = none;
      created_at = b.now;
    } in
      (ok saved, record b { wallets = saved ∷ b.wallets; next_id = b.next_id + 1 })

unfoldable pub get_wallet : ℕ → ℕ → Exec Bank Wallet
get_wallet wallet_id user_id = do
  found ← gets (find_wallet wallet_id)
  wallet ← or_throw found (not_found wallet_not_found)
  throw_if (not (wallet.user_id == user_id)) (forbidden access_denied)
  pure wallet

unfoldable pub debit : DebitParams → Exec Bank LedgerEntry
debit p = do
  throw_if (leb_ℤ p.amount (pos 0)) (bad_request debit_not_positive)
  found ← gets (find_wallet p.wallet_id)
  wallet ← or_throw found (not_found wallet_not_found)
  throw_if (not (wallet.user_id == p.user_id)) (forbidden access_denied)
  throw_if (not (is_active wallet.status)) (bad_request wallet_not_active)
  let available = wallet.balance -ℤ wallet.held_balance
  throw_if (ltb_ℤ available p.amount) (bad_request insufficient_funds)
  let new_balance = wallet.balance -ℤ p.amount
  modify (set_balance p.wallet_id new_balance)
  save_entry (λ id now. record {
    id = id;
    wallet_id = p.wallet_id;
    type = debit_entry;
    category = p.category;
    amount = p.amount;
    balance_after = new_balance;
    transfer_id = p.transfer_id;
    provider_reference = p.provider_reference;
    narration = p.narration;
    created_at = now;
  })

unfoldable pub credit : CreditParams → Exec Bank LedgerEntry
credit p = do
  throw_if (leb_ℤ p.amount (pos 0)) (bad_request credit_not_positive)
  found ← gets (find_wallet p.wallet_id)
  wallet ← or_throw found (not_found wallet_not_found)
  throw_if (is_closed wallet.status) (bad_request wallet_closed)
  let new_balance = wallet.balance +ℤ p.amount
  modify (set_balance p.wallet_id new_balance)
  save_entry (λ id now. record {
    id = id;
    wallet_id = p.wallet_id;
    type = credit_entry;
    category = p.category;
    amount = p.amount;
    balance_after = new_balance;
    transfer_id = p.transfer_id;
    provider_reference = p.provider_reference;
    narration = p.narration;
    created_at = now;
  })

-- `CASE WHEN le.type = 'credit' THEN le.amount ELSE -le.amount END`, for the rows of one wallet.
abbrev pub signed_amount : ℕ → LedgerEntry → ℤ
signed_amount k e =
    if e.wallet_id == k
    then (elim e.type [ credit_entry ↦ e.amount | debit_entry ↦ pos 0 -ℤ e.amount ])
    else pos 0

-- The sum that the query of `reconcileBalance` returns; `|| '0'` is the sum of no rows.
abbrev pub ledger_balance : ℕ → List LedgerEntry → ℤ
ledger_balance k = sum_by (signed_amount k)

pub record Reconciliation : Type 0 where
  pub wallet_balance : ℤ
  pub calculated_balance : ℤ
  pub is_consistent : Bool

-- `findOneOrFail` throws if there is no such wallet.
unfoldable pub reconcile_balance : ℕ → Exec Bank Reconciliation
reconcile_balance wallet_id = do
  found ← gets (find_wallet wallet_id)
  wallet ← or_throw found (internal wallet_not_found)
  calculated ← gets (λ b. ledger_balance wallet_id b.ledger)
  pure (record {
    wallet_balance = wallet.balance;
    calculated_balance = calculated;
    is_consistent = eqb_ℤ wallet.balance calculated;
  })
