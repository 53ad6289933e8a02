-- ===== src/Reports/Statement.antt =====
-- src/modules/reports/reports.service.ts: `generateStatement`. The ledger is kept newest first, so
-- that `createdAt DESC` is the order of the rows and `ASC` its reverse.
use mathlib.Core.List.{reverse}
use transact_go.Outcome.{Exec, gets, internal, or_throw, wallet_not_found, ◌>>=◌}
use transact_go.Prelude.{
  Bool, List, Option, [], false, find, leb, length, none, not, select, some, true, ℕ, ◌&&◌, ◌==◌,
  ◌∷◌,
}
use transact_go.Prelude.Int.{pos, ℤ, ◌+ℤ◌}
use transact_go.Wallets.Entities.{
  Currency, EntryType, LedgerEntry, Wallet, credit_entry, debit_entry,
}
use transact_go.Wallets.Service.{Bank}

pub record AccountStatement : Type 0 where
  pub wallet_id : ℕ
  pub currency : Currency
  pub opening_balance : ℤ
  pub closing_balance : ℤ
  pub total_credits : ℤ
  pub total_debits : ℤ
  pub transaction_count : ℕ
  pub entries : List LedgerEntry
  pub period_from : ℕ
  pub period_to : ℕ
  pub generated_at : ℕ

abbrev pub is_credit : EntryType → Bool
is_credit credit_entry = true
is_credit debit_entry = false

-- `where: { walletId, createdAt: LessThanOrEqual(from) }`
abbrev pub is_opening : ℕ → ℕ → LedgerEntry → Bool
is_opening wallet_id from e = e.wallet_id == wallet_id && leb e.created_at from

-- `openingEntry?.balanceAfter ?? 0`
abbrev pub balance_or : ℤ → Option LedgerEntry → ℤ
balance_or d none = d
balance_or d (some e) = e.balance_after

-- `where: { walletId, createdAt: Between(from, to) }`: both ends are in.
abbrev pub in_period : ℕ → ℕ → ℕ → LedgerEntry → Bool
in_period wallet_id from to e =
    e.wallet_id == wallet_id && (leb from e.created_at && leb e.created_at to)

-- `entries[entries.length - 1]`
abbrev pub last_entry : List LedgerEntry → Option LedgerEntry
last_entry [] = none
last_entry (e ∷ es) = elim (last_entry es) [ none ↦ some e | some x ↦ some x ]

-- `reduce((sum, e) => sum + Number(e.amount), 0)`
abbrev pub add_up : ℤ → List LedgerEntry → ℤ
add_up total [] = total
add_up total (e ∷ es) = add_up (total +ℤ e.amount) es

abbrev pub opening_of : ℕ → ℕ → List LedgerEntry → ℤ
opening_of wallet_id from ledger = balance_or (pos 0) (find (is_opening wallet_id from) ledger)

abbrev pub entries_in : ℕ → ℕ → ℕ → List LedgerEntry → List LedgerEntry
entries_in wallet_id from to ledger = reverse (select (in_period wallet_id from to) ledger)

abbrev pub statement_of : Wallet → ℕ → ℕ → Bank → AccountStatement
statement_of wallet from to b =
    let opening = opening_of wallet.id from b.ledger in
    let entries = entries_in wallet.id from to b.ledger in
    record {
      wallet_id = wallet.id;
      currency = wallet.currency;
      opening_balance = opening;
      closing_balance = balance_or opening (last_entry entries);
      total_credits = add_up (pos 0) (select (λ e. is_credit e.type) entries);
      total_debits = add_up (pos 0) (select (λ e. not (is_credit e.type)) entries);
      transaction_count = length entries;
      entries = entries;
      period_from = from;
      period_to = to;
      generated_at = b.now;
    }

-- `findOneOrFail({ where: { id: walletId, userId } })`
abbrev pub owned_wallet : ℕ → ℕ → Bank → Option Wallet
owned_wallet wallet_id user_id b = find (λ w. w.id == wallet_id && w.user_id == user_id) b.wallets

unfoldable pub generate_statement : ℕ → ℕ → ℕ → ℕ → Exec Bank AccountStatement
generate_statement wallet_id user_id from to = do
  found ← gets (owned_wallet wallet_id user_id)
  wallet ← or_throw found (internal wallet_not_found)
  gets (statement_of wallet from to)
