-- ===== src/Tests/Transfers.antt =====
-- The theorems on transfers, applied to a transfer of 400,000 kobo.
use transact_go.Fees.Service.{calculate, charge_rule, compute_base_fee, round_mul}
use transact_go.Outcome.{bad_request, err, insufficient_funds, ok}
use transact_go.Prelude.{arith, none, refl, ◌≡◌}
use transact_go.Prelude.Int.{pos, ◌+ℤ◌, ◌-ℤ◌, ◌≤ℤ◌}
use transact_go.Tests.Fixtures.{
  midnight_of, payer, seeded_schedule, start_db, two_wallets-IsKeyed, two_wallets-IsValid,
}
use transact_go.Transfers.Store.{fits_columns}
use transact_go.Transfers.Conservation.{
  Settles, internal_transfer-IsValid, internal_transfer-Settles, internal_transfer_atomic,
}
use transact_go.Transfers.Entities.{Transfer}
use transact_go.Transfers.Limits.{internal_transfer-within_limit}
use transact_go.Transfers.Service.{
  InternalTransferDto, assert_within_daily_limit, completed_at_time, daily_total, internal_body,
  internal_row, internal_transfer, validate_internal,
}
use transact_go.Transfers.Store.{Db}
use transact_go.Wallets.Invariant.{IsValid}
use transact_go.Wallets.Service.{credit, debit}

abbrev dto : InternalTransferDto
dto = record {
  source_wallet_id = 1;
  destination_wallet_id = 2;
  amount = pos 400_000;
  currency = "NGN";
  narration = none;
  reference = none;
}

abbrev sent : Transfer
sent = completed_at_time seeded_schedule 1000 (internal_row seeded_schedule 7 dto 10 1000)

abbrev after : Db
after = (internal_transfer seeded_schedule midnight_of 7 dto start_db).1

sent_ok : internal_transfer seeded_schedule midnight_of 7 dto start_db ≡ (ok sent, after)
unfolding fits_columns internal_transfer validate_internal internal_body assert_within_daily_limit
    debit credit calculate charge_rule compute_base_fee round_mul ◌+ℤ◌ ◌-ℤ◌
sent_ok = refl

internal_transfer-Settles_example : Settles seeded_schedule midnight_of 7 dto start_db after
internal_transfer-Settles_example =
    internal_transfer-Settles seeded_schedule midnight_of 7 dto start_db sent after
      two_wallets-IsKeyed sent_ok

internal_transfer-IsValid_example :
    IsValid (internal_transfer seeded_schedule midnight_of 7 dto start_db).1.bank
internal_transfer-IsValid_example =
    internal_transfer-IsValid seeded_schedule midnight_of 7 dto start_db two_wallets-IsValid

internal_transfer-within_limit_example : daily_total 7 "NGN" 600 after ≤ℤ pos 5_000_000
internal_transfer-within_limit_example =
    internal_transfer-within_limit seeded_schedule midnight_of 7 dto start_db payer (pos 5_000_000)
      sent after tt (omega arith) refl refl sent_ok

-- The same transfer under another currency text.
abbrev mislabelled : InternalTransferDto
mislabelled = record dto { currency = "XXX" }

-- A transfer that is within the limit of the day and beyond the balance.
abbrev too_much : InternalTransferDto
too_much = record dto { amount = pos 2_000_000 }

too_much_err :
    internal_transfer seeded_schedule midnight_of 7 too_much start_db
    ≡ (err (bad_request insufficient_funds), start_db)
unfolding fits_columns internal_transfer validate_internal internal_body assert_within_daily_limit
    debit credit calculate charge_rule compute_base_fee round_mul ◌+ℤ◌ ◌-ℤ◌
too_much_err = refl

internal_transfer_atomic_example : start_db ≡ start_db
internal_transfer_atomic_example =
    internal_transfer_atomic seeded_schedule midnight_of 7 too_much start_db
      (bad_request insufficient_funds) start_db too_much_err
