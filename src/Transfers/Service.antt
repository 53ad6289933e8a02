-- ===== src/Transfers/Service.antt =====
-- src/modules/transfers/transfers.service.ts: `internalTransfer` and the daily limit.
-- `FeesService.calculate` comes behind the interface `FeeSchedule`, and local midnight
-- (`setHours(0, 0, 0, 0)`) is a function of the time, since it depends on the server's zone.
use transact_go.Fees.Service.{FeeBreakdown, FeeCalculationParams}
use transact_go.Outcome.{
  Exec, access_denied, bad_request, cross_currency, daily_limit_exceeded, destination_not_found,
  err, forbidden, gets, in_transaction, kyc_required, not_found, ok, or_throw, pure, same_wallet,
  source_not_found, throw_if, transfer_not_positive, user_not_found, ◌>>=◌, ◌>>◌,
}
use transact_go.Prelude.{Option, String, if◌then◌else◌, leb, none, not, some, str_eq, ℕ, ◌&&◌, ◌==◌}
use transact_go.Prelude.Int.{leb_ℤ, ltb_ℤ, pos, ℤ, ◌+ℤ◌, ◌≤ℤ◌}
use transact_go.Prelude.Rows.{sum_by}
use transact_go.Transfers.Entities.{
  Transfer, completed, counts_today, internal_transfer_type, processing,
}
use transact_go.Transfers.Store.{Db, find_user, on_bank, save_transfer, update_transfer}
use transact_go.Users.Entities.{KycTier, is_unverified, tier_1, tier_2, tier_3, unverified}
use transact_go.Wallets.Entities.{
  Narration, code, internal_credit, internal_debit, text, transfer_from, transfer_to,
}
use transact_go.Wallets.Service.{CreditParams, DebitParams, credit, debit, find_wallet}

pub record InternalTransferDto : Type 0 where
  pub source_wallet_id : ℕ
  pub destination_wallet_id : ℕ
  pub amount : ℤ
  pub currency : String
  pub narration : Option String
  pub reference : Option String

-- DAILY_LIMITS; `none` is `Infinity`.
abbrev pub daily_limit : KycTier → Option ℤ
daily_limit unverified = some (pos 0)
daily_limit tier_1 = some (pos 5_000_000)
daily_limit tier_2 = some (pos 50_000_000)
daily_limit tier_3 = none

-- What the fees service promises: a breakdown whose total is not negative.
pub record FeeSchedule : Type 0 where
  pub calculate : FeeCalculationParams → FeeBreakdown
  pub total_nonneg : (p : FeeCalculationParams) → pos 0 ≤ℤ (calculate p).total_fee

-- One row of `COALESCE(SUM(t.amount), 0)` with the conditions of the query.
abbrev pub daily_amount : ℕ → String → ℕ → Transfer → ℤ
daily_amount user currency since t =
    if t.user_id == user
      && str_eq t.currency currency
      && counts_today t.status
      && leb since t.created_at
    then t.amount
    else pos 0

abbrev pub daily_total : ℕ → String → ℕ → Db → ℤ
daily_total user currency since db = sum_by (daily_amount user currency since) db.transfers

module _ (start_of_day : ℕ → ℕ) where
  abbrev pub within_limit : Option ℤ → ℕ → ℤ → String → Exec Db (Unit {0})
  within_limit none user amount currency db = (ok tt, db)
  within_limit (some limit) user amount currency db =
      let total = daily_total user currency (start_of_day db.bank.now) db in
      (if ltb_ℤ limit (total +ℤ amount) then err (forbidden daily_limit_exceeded) else ok tt, db)

  unfoldable pub assert_within_daily_limit : ℕ → ℤ → String → KycTier → Exec Db (Unit {0})
  assert_within_daily_limit user amount currency tier =
      within_limit (daily_limit tier) user amount currency

  -- The checks before the transaction.
  unfoldable pub validate_internal : ℕ → InternalTransferDto → Exec Db (Unit {0})
  validate_internal user_id dto = do
    source_found ← gets (λ db. find_wallet dto.source_wallet_id db.bank)
    destination_found ← gets (λ db. find_wallet dto.destination_wallet_id db.bank)
    user_found ← gets (find_user user_id)
    source ← or_throw source_found (not_found source_not_found)
    destination ← or_throw destination_found (not_found destination_not_found)
    user ← or_throw user_found (not_found user_not_found)
    throw_if (not (source.user_id == user_id)) (forbidden access_denied)
    throw_if (source.id == destination.id) (bad_request same_wallet)
    throw_if (not (str_eq (code source.currency) (code destination.currency)))
        (bad_request cross_currency)
    throw_if (leb_ℤ dto.amount (pos 0)) (bad_request transfer_not_positive)
    throw_if (is_unverified user.kyc_tier) (forbidden kyc_required)
    assert_within_daily_limit user_id dto.amount dto.currency user.kyc_tier

-- `dto.narration || …`: an empty text counts as missing.
abbrev pub narration_or : Option String → Narration → Narration
narration_or none d = d
narration_or (some s) d = if str_eq s "" then d else text s

module _ (fees : FeeSchedule) where
  abbrev pub internal_fee : InternalTransferDto → FeeBreakdown
  internal_fee dto =
      fees.calculate
        (record { amount = dto.amount; currency = dto.currency; transaction_type = "internal" })

  abbrev pub internal_row : ℕ → InternalTransferDto → ℕ → ℕ → Transfer
  internal_row user_id dto id now = record {
    id = id;
    user_id = user_id;
    type = internal_transfer_type;
    status = processing;
    currency = dto.currency;
    amount = dto.amount;
    fee = (internal_fee dto).total_fee;
    tax = (internal_fee dto).tax;
    fee_breakdown = some (internal_fee dto);
    source_wallet_id = some dto.source_wallet_id;
    destination_wallet_id = some dto.destination_wallet_id;
    provider = none;
    provider_reference = none;
    reference = dto.reference;
    narration = dto.narration;
    failure_reason = none;
    attempts = 0;
    completed_at = none;
    created_at = now;
  }

  abbrev pub source_debit : ℕ → InternalTransferDto → ℕ → DebitParams
  source_debit user_id dto transfer_id = record {
    wallet_id = dto.source_wallet_id;
    user_id = user_id;
    amount = dto.amount +ℤ (internal_fee dto).total_fee;
    category = internal_debit;
    narration = narration_or dto.narration (transfer_to dto.destination_wallet_id);
    transfer_id = some transfer_id;
    provider_reference = none;
  }

  abbrev pub destination_credit : InternalTransferDto → ℕ → CreditParams
  destination_credit dto transfer_id = record {
    wallet_id = dto.destination_wallet_id;
    amount = dto.amount;
    category = internal_credit;
    narration = narration_or dto.narration (transfer_from dto.source_wallet_id);
    transfer_id = some transfer_id;
    provider_reference = none;
  }

  abbrev pub completed_at_time : ℕ → Transfer → Transfer
  completed_at_time now t = record t { status = completed; completed_at = some now }

  -- The body of the transaction.
  unfoldable pub internal_body : ℕ → InternalTransferDto → Exec Db Transfer
  internal_body user_id dto = do
    saved ← save_transfer (internal_row user_id dto)
    on_bank (debit (source_debit user_id dto saved.id))
    on_bank (credit (destination_credit dto saved.id))
    now ← gets (λ db. db.bank.now)
    update_transfer saved.id (completed_at_time now)
    pure (completed_at_time now saved)

unfoldable pub internal_transfer :
    FeeSchedule → (ℕ → ℕ) → ℕ → InternalTransferDto → Exec Db Transfer
unfolding validate_internal internal_body
internal_transfer fees start_of_day user_id dto = do
  validate_internal start_of_day user_id dto
  in_transaction (internal_body fees user_id dto)
