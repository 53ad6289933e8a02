-- ===== src/Payments/Service.antt =====
-- src/modules/payments/payments.service.ts. The fees and fraud services come behind interfaces.
-- `queue_up` says whether the server of the Bull queues accepts jobs during the call: `add` throws
-- if it does not.
-- `metadata` and `recipientDetails` go into columns, jobs and messages that no code here reads, and
-- are left out.
use Prim.Native.String.{◌++◌}
use transact_go.Fees.Service.{FeeBreakdown}
use transact_go.Fraud.Gate.{FraudGate, evaluate}
use transact_go.Outcome.{
  Exec, access_denied, amount_not_positive, bad_request, err, gets, in_transaction, internal,
  not_found, ok, or_throw, pure, queue_unavailable, throw_if, unknown_provider, user_not_found,
  wallet_not_found, wrong_currency, ◌>>=◌, ◌>>◌,
}
use transact_go.Prelude.{Bool, Option, String, if◌then◌else◌, none, not, some, str_eq, ℕ, ◌==◌, ◌∷◌}
use transact_go.Prelude.Int.{leb_ℤ, pos, ℤ, ◌+ℤ◌, ◌-ℤ◌}
use transact_go.Transfers.Entities.{
  Transfer, completed, deposit_type, is_pending, pending, processing, withdrawal_type,
}
use transact_go.Transfers.Service.{FeeSchedule}
use transact_go.Transfers.Store.{
  AuditEntry, Db, Notification, PaymentJob, find_transfer, find_user, on_bank, process_deposit,
  process_withdrawal, save_transfer, transfer_complete, transfer_init, transfer_received,
  update_transfer,
}
use transact_go.Wallets.Entities.{code, deposit, text, withdrawal}
use transact_go.Wallets.Service.{CreditParams, DebitParams, credit, debit, find_wallet}

pub data Provider : Type 0 where
  flutterwave stripe : Provider

unfoldable pub get_provider : String → Exec Db Provider
get_provider name db =
    if str_eq name "flutterwave"
    then (ok flutterwave, db)
    else if str_eq name "stripe"
    then (ok stripe, db)
    else (err (bad_request unknown_provider), db)

pub record InitiateDepositDto : Type 0 where
  pub wallet_id : ℕ
  pub amount : ℤ
  pub currency : String
  pub provider : String
  pub customer_email : Option String

pub record InitiateWithdrawalDto : Type 0 where
  pub wallet_id : ℕ
  pub amount : ℤ
  pub currency : String
  pub provider : String
  pub narration : Option String

abbrev pub enqueue : Bool → PaymentJob → Exec Db (Unit {0})
enqueue queue_up job db =
    if queue_up
    then (ok tt, record db { jobs = job ∷ db.jobs })
    else (err (internal queue_unavailable), db)

abbrev pub notify : Bool → Notification → Exec Db (Unit {0})
notify queue_up n db =
    if queue_up
    then (ok tt, record db { notifications = n ∷ db.notifications })
    else (err (internal queue_unavailable), db)

-- `auditService.log` never throws.
abbrev pub audit_log : AuditEntry → Exec Db (Unit {0})
audit_log e db = (ok tt, record db { audit = e ∷ db.audit })

abbrev pub or_text : Option String → String → String
or_text none d = d
or_text (some s) d = s

module _ (fees : FeeSchedule) where
  abbrev pub payment_fee : ℤ → String → String → FeeBreakdown
  payment_fee amount currency kind =
      fees.calculate (record { amount = amount; currency = currency; transaction_type = kind })

  abbrev pub deposit_row : ℕ → InitiateDepositDto → ℕ → ℕ → Transfer
  deposit_row user_id dto id now =
      let breakdown = payment_fee dto.amount dto.currency "deposit" in
      record {
        id = id;
        user_id = user_id;
        type = deposit_type;
        status = pending;
        currency = dto.currency;
        amount = dto.amount;
        fee = breakdown.total_fee;
        tax = pos 0;
        fee_breakdown = some breakdown;
        source_wallet_id = none;
        destination_wallet_id = some dto.wallet_id;
        provider = some dto.provider;
        provider_reference = none;
        reference = none;
        narration = some ("Deposit via " ++ dto.provider);
        failure_reason = none;
        attempts = 0;
        completed_at = none;
        created_at = now;
      }

  abbrev pub withdrawal_row : ℕ → InitiateWithdrawalDto → ℕ → ℕ → Transfer
  withdrawal_row user_id dto id now =
      let breakdown = payment_fee dto.amount dto.currency "withdrawal" in
      record {
        id = id;
        user_id = user_id;
        type = withdrawal_type;
        status = processing;
        currency = dto.currency;
        amount = dto.amount;
        fee = breakdown.total_fee;
        tax = pos 0;
        fee_breakdown = some breakdown;
        source_wallet_id = some dto.wallet_id;
        destination_wallet_id = none;
        provider = some dto.provider;
        provider_reference = none;
        reference = none;
        narration = some (or_text dto.narration ("Withdrawal via " ++ dto.provider));
        failure_reason = none;
        attempts = 0;
        completed_at = none;
        created_at = now;
      }

  abbrev pub withdrawal_debit : ℕ → InitiateWithdrawalDto → ℕ → DebitParams
  withdrawal_debit user_id dto transfer_id = record {
    wallet_id = dto.wallet_id;
    user_id = user_id;
    amount = dto.amount +ℤ (payment_fee dto.amount dto.currency "withdrawal").total_fee;
    category = withdrawal;
    narration = text (or_text dto.narration ("Withdrawal via " ++ dto.provider));
    transfer_id = some transfer_id;
    provider_reference = none;
  }

  -- The body of the transaction of `initiateWithdrawal`.
  unfoldable pub withdrawal_body : ℕ → InitiateWithdrawalDto → Exec Db Transfer
  withdrawal_body user_id dto = do
    transfer ← save_transfer (withdrawal_row user_id dto)
    on_bank (debit (withdrawal_debit user_id dto transfer.id))
    pure transfer

module _ (fees : FeeSchedule) (gate : FraudGate) (queue_up : Bool) where
  unfoldable pub initiate_deposit : ℕ → InitiateDepositDto → Exec Db Transfer
  initiate_deposit user_id dto = do
    wallet_found ← gets (λ db. find_wallet dto.wallet_id db.bank)
    wallet ← or_throw wallet_found (not_found wallet_not_found)
    throw_if (not (wallet.user_id == user_id)) (bad_request access_denied)
    throw_if (not (str_eq (code wallet.currency) dto.currency)) (bad_request wrong_currency)
    throw_if (leb_ℤ dto.amount (pos 0)) (bad_request amount_not_positive)
    user_found ← gets (find_user user_id)
    user ← or_throw user_found (not_found user_not_found)
    evaluate gate (record {
      user_id = user_id;
      amount = dto.amount;
      currency = dto.currency;
      kyc_tier = user.kyc_tier;
      transfer_id = none;
    })
    transfer ← save_transfer (deposit_row fees user_id dto)
    enqueue queue_up (
        process_deposit transfer.id user_id dto.wallet_id dto.amount dto.currency dto.provider
          (or_text dto.customer_email user.email))
    audit_log (transfer_init user_id transfer.id)
    pure transfer

  -- A throw of `add` comes after the commit, which the rollback in the handler cannot undo.
  unfoldable pub initiate_withdrawal : ℕ → InitiateWithdrawalDto → Exec Db Transfer
  initiate_withdrawal user_id dto = do
    wallet_found ← gets (λ db. find_wallet dto.wallet_id db.bank)
    wallet ← or_throw wallet_found (not_found wallet_not_found)
    throw_if (not (wallet.user_id == user_id)) (bad_request access_denied)
    user_found ← gets (find_user user_id)
    user ← or_throw user_found (not_found user_not_found)
    evaluate gate (record {
      user_id = user_id;
      amount = dto.amount;
      currency = dto.currency;
      kyc_tier = user.kyc_tier;
      transfer_id = none;
    })
    transfer ← in_transaction (withdrawal_body fees user_id dto)
    enqueue queue_up (process_withdrawal transfer.id user_id dto.amount dto.currency dto.provider)
    audit_log (transfer_init user_id transfer.id)
    pure transfer

-- A deposit row always names its wallet: `deposit_row` is the only writer of such rows.
abbrev pub deposit_credit : Transfer → ℕ → String → CreditParams
deposit_credit t wallet_id provider_reference = record {
  wallet_id = wallet_id;
  amount = t.amount -ℤ t.fee;
  category = deposit;
  narration = text ("Deposit via " ++ or_text t.provider "null");
  transfer_id = some t.id;
  provider_reference = some provider_reference;
}

abbrev pub complete_row : String → ℕ → Transfer → Transfer
complete_row provider_reference now t = record t {
  status = completed;
  provider_reference = some provider_reference;
  completed_at = some now;
}

-- The body of the transaction of `completeDeposit`.
unfoldable pub deposit_body : Transfer → String → Exec Db (Unit {0})
deposit_body t provider_reference = do
  wallet_id ← or_throw t.destination_wallet_id (not_found wallet_not_found)
  on_bank (credit (deposit_credit t wallet_id provider_reference))
  now ← gets (λ db. db.bank.now)
  update_transfer t.id (complete_row provider_reference now)

unfoldable pub complete_found : Bool → Transfer → String → Exec Db (Unit {0})
complete_found queue_up t provider_reference = do
  in_transaction (deposit_body t provider_reference)
  notify queue_up (transfer_received t.user_id t.amount t.currency (or_text t.provider "unknown"))
  audit_log (transfer_complete t.user_id t.id)

-- `if (!transfer || transfer.status !== PENDING) return`
abbrev pub complete_if_pending : Bool → Option Transfer → String → Exec Db (Unit {0})
complete_if_pending queue_up none r db = (ok tt, db)
complete_if_pending queue_up (some t) r db =
    if is_pending t.status then complete_found queue_up t r db else (ok tt, db)

unfoldable pub complete_deposit : Bool → ℕ → String → Exec Db (Unit {0})
complete_deposit queue_up transfer_id provider_reference db =
    complete_if_pending queue_up (find_transfer transfer_id db) provider_reference db
