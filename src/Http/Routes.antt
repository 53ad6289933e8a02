-- ===== src/Http/Routes.antt =====
-- The reading routes of src/modules/transfers/transfers.controller.ts,
-- src/modules/wallets/wallets.controller.ts, src/modules/reports/reports.controller.ts,
-- src/modules/exchange-rates/exchange-rate.controller.ts and the report of
-- src/modules/admin/admin.module.ts, for the user that the guards have let through. A query parameter
-- that is missing is `none`, and a date is its time.
use transact_go.Cache.{Cache}
use transact_go.Exchange.Service.{ConversionResult, ExchangeRate, RateDb, convert, get_rate}
use transact_go.Outcome.{Exec}
use transact_go.Prelude.{List, Option, String, none, some, ℕ, ◌-◌}
use transact_go.Prelude.Paging.{Page}
use transact_go.Ratio.{Ratio}
use transact_go.Reports.Platform.{PlatformRow, PlatformSummary, get_platform_summary}
use transact_go.Reports.Statement.{AccountStatement, generate_statement}
use transact_go.Reports.Summary.{TransactionSummary, get_user_summary}
use transact_go.Transfers.Entities.{Transfer, TransferStatus, TransferType}
use transact_go.Transfers.Queries.{get_transfer_history}
use transact_go.Transfers.Store.{Db}
use transact_go.Wallets.Entities.{Currency, EntryCategory, LedgerEntry, Wallet}
use transact_go.Wallets.Queries.{get_ledger}
use transact_go.Wallets.Service.{Bank, create_wallet}

-- `DefaultValuePipe`
abbrev pub or_pipe_default : Option ℕ → ℕ → ℕ
or_pipe_default none d = d
or_pipe_default (some n) d = n

-- `from ? new Date(from) : new Date(Date.now() - 30 * 86400_000)`, and now for `to`.
abbrev pub from_date : ℕ → Option ℕ → ℕ
from_date now from = or_pipe_default from (now - 2_592_000_000)

abbrev pub to_date : ℕ → Option ℕ → ℕ
to_date now to = or_pipe_default to now

unfoldable pub get_history :
    ℕ → (page limit : Option ℕ) → Option TransferStatus → Option TransferType → Db → Page Transfer
get_history user_id page limit status type db =
    get_transfer_history user_id
      (record {
        page = some (or_pipe_default page 1);
        limit = some (or_pipe_default limit 20);
        status = status;
        type = type;
      })
      db

unfoldable pub get_wallet_ledger :
    ℕ → ℕ → (page limit : Option ℕ) → Option EntryCategory → Exec Bank (Page LedgerEntry)
get_wallet_ledger id user_id page limit category = get_ledger id user_id (record {
  page = some (or_pipe_default page 1);
  limit = some (or_pipe_default limit 20);
  category = category;
})

-- The label of the body goes nowhere.
unfoldable pub post_wallet : ℕ → Currency → (label : Option String) → Exec Bank Wallet
post_wallet user_id currency label = create_wallet user_id currency

unfoldable pub get_statement : ℕ → ℕ → ℕ → (from to : Option ℕ) → Exec Bank AccountStatement
get_statement now wallet_id user_id from to =
    generate_statement wallet_id user_id (from_date now from) (to_date now to)

unfoldable pub get_summary : ℕ → ℕ → (from to : Option ℕ) → Db → TransactionSummary
get_summary now user_id from to = get_user_summary user_id (from_date now from) (to_date now to)

unfoldable pub get_platform_report :
    (grouped : List Transfer → List PlatformRow) → ℕ → (from to : Option ℕ) → Db → PlatformSummary
get_platform_report grouped now from to =
    get_platform_summary grouped now (from_date now from) (to_date now to)

-- `upper` is `toUpperCase`.
module _ (upper : String → String) (to_column : Ratio → Ratio) (C : Cache String ExchangeRate) where
  unfoldable pub get_rate_route : String → String → Exec (RateDb to_column C) ExchangeRate
  get_rate_route from to = get_rate to_column C (upper from) (upper to)

  unfoldable pub convert_route : String → String → ℕ → Exec (RateDb to_column C) ConversionResult
  convert_route from to amount = convert to_column C amount (upper from) (upper to)
