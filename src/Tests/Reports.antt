-- ===== src/Tests/Reports.antt =====
-- The theorems on the reports, applied to a bank with one wallet and to one transfer.
use transact_go.Prelude.{List, [], arith, length, none, refl, select, some, ◌∷◌, ◌≡◌}
use transact_go.Prelude.Int.{pos, ◌+ℤ◌}
use transact_go.Prelude.Rows.{sum_by}
use transact_go.Reports.Breakdown.{
  get_field, get_user_summary_lem, in_currency, in_status, in_type, totals_of,
}
use transact_go.Reports.Consistency.{IsBalanced, generate_statement-IsBalanced}
use transact_go.Reports.History.{Moment, act_now, live, live_all, wait}
use transact_go.Reports.Statement.{generate_statement, statement_of}
use transact_go.Reports.Summary.{get_user_summary, in_summary, no_totals}
use transact_go.Tests.Fixtures.{start_db}
use transact_go.Transfers.Entities.{Transfer, TransferStatus, withdrawal_type}
use transact_go.Transfers.Store.{Db}
use transact_go.Wallets.Entities.{EntryCategory, Wallet, WalletStatus, ngn, text}
use transact_go.Wallets.Preserved.{create_op, credit_op, empty_bank, perform}
use transact_go.Wallets.Service.{Bank, create_wallet, credit}

abbrev history : List Moment
history =
    act_now (create_op 7 ngn)
    ∷ wait 10
    ∷ act_now (
        credit_op (record {
          wallet_id = 0;
          amount = pos 500;
          category = EntryCategory.deposit;
          narration = text "";
          transfer_id = none;
          provider_reference = none;
        }))
    ∷ wait 10
    ∷ []

abbrev later_bank : Bank
later_bank = live_all history empty_bank

abbrev saver : Wallet
saver = record {
  id = 0;
  user_id = 7;
  currency = ngn;
  balance = pos 500;
  held_balance = pos 0;
  status = WalletStatus.active;
  label = none;
  created_at = 0;
}

generate_statement-IsBalanced_example :
    IsBalanced 0 5 15 later_bank.ledger (statement_of saver 5 15 later_bank)
unfolding live_all live perform create_wallet credit ◌+ℤ◌ generate_statement
generate_statement-IsBalanced_example =
    generate_statement-IsBalanced history 0 7 5 15 (statement_of saver 5 15 later_bank) later_bank
      (omega arith) refl

abbrev one_transfer : Transfer
one_transfer = record {
  id = 11;
  user_id = 7;
  type = withdrawal_type;
  status = TransferStatus.completed;
  currency = "NGN";
  amount = pos 300;
  fee = pos 20;
  tax = pos 0;
  fee_breakdown = none;
  source_wallet_id = some 1;
  destination_wallet_id = none;
  provider = none;
  provider_reference = none;
  reference = none;
  narration = none;
  failure_reason = none;
  attempts = 0;
  completed_at = none;
  created_at = 900;
}

abbrev sent_db : Db
sent_db = record start_db { transfers = one_transfer ∷ [] }

get_user_summary_lem_example :
    let ts = select (in_summary 7 0 1000) sent_db.transfers in
    let s = get_user_summary 7 0 1000 sent_db in
    (get_field no_totals "NGN" s.by_currency ≡ totals_of (select (in_currency "NGN") ts))
    × (get_field 0 "NGN" s.by_status ≡ length (select (in_status "NGN") ts))
    × (get_field 0 "NGN" s.by_type ≡ length (select (in_type "NGN") ts))
    × (s.total_volume ≡ sum_by Transfer.amount ts)
    × (s.total_fees ≡ sum_by Transfer.fee ts)
    × (s.total_transfers ≡ length ts)
get_user_summary_lem_example = get_user_summary_lem 7 0 1000 sent_db "NGN"
