-- ===== src/Wallets/Queries.antt =====
-- The reading methods of src/modules/wallets/wallets.service.ts, `getUserWallets` and `getLedger`.
-- Tables are kept newest first, so `createdAt DESC` is the order of the rows.
use mathlib.Core.List.{reverse}
use transact_go.Outcome.{Exec, Result, access_denied, err, forbidden, gets, ok, ◌>>◌}
use transact_go.Prelude.{
  Bool, List, Option, [], arith, min, none, select, some, suc, true, zero, ℕ, ◌&&◌, ◌++◌, ◌==◌, ◌≡◌,
  ◌≢◌,
}
use transact_go.Prelude.Paging.{Page, or_default, page_of}
use transact_go.Wallets.Entities.{EntryCategory, LedgerEntry, Wallet, same_category}
use transact_go.Wallets.Service.{Bank, find_wallet, get_wallet}

-- The `options` of `getLedger`.
pub record LedgerQuery : Type 0 where
  pub page : Option ℕ
  pub limit : Option ℕ
  pub category : Option EntryCategory

unfoldable pub get_user_wallets : ℕ → Exec Bank (List Wallet)
get_user_wallets user_id = gets (λ b. reverse (select (λ w. w.user_id == user_id) b.wallets))

abbrev pub in_category : Option EntryCategory → LedgerEntry → Bool
in_category none e = true
in_category (some c) e = same_category e.category c

-- The `where` of the query.
abbrev pub ledger_rows : ℕ → Option EntryCategory → Bank → List LedgerEntry
ledger_rows wallet_id category b =
    select (λ e. e.wallet_id == wallet_id && in_category category e) b.ledger

abbrev pub page_size : Option ℕ → ℕ
page_size limit = min (or_default limit 20) 100

unfoldable pub get_ledger : ℕ → ℕ → LedgerQuery → Exec Bank (Page LedgerEntry)
unfolding get_wallet
get_ledger wallet_id user_id options = do
  get_wallet wallet_id user_id
  let page = or_default options.page 1
  let limit = page_size options.limit
  gets (λ b. page_of (ledger_rows wallet_id options.category b) page limit)

abbrev pub entries_of : Result (Page LedgerEntry) → List LedgerEntry
entries_of (ok p) = p.entries
entries_of (err _) = []

module _ (k user : ℕ) (category : Option EntryCategory) (limit : Option ℕ) (b : Bank) where
  -- What the requests for `n` pages return, one after the other, from page `from + 1` on.
  abbrev pub fetch : ℕ → ℕ → List LedgerEntry
  fetch zero from = []
  fetch (suc n) from =
      entries_of
        (get_ledger k user (record { page = some (suc from); limit = limit; category = category })
          b).0
      ++ fetch n (suc from)

-- Reading the ledger of another user's wallet is refused.
pub get_ledger_denied :
    (k user : ℕ) (o : LedgerQuery) (b : Bank) (w : Wallet)
    → find_wallet k b ≡ some w
    → w.user_id ≢ user
    → get_ledger k user o b ≡ (err (forbidden access_denied), b)
unfolding get_ledger
get_ledger_denied k user o b w found stranger = ground arith
