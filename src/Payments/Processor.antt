-- ===== src/Payments/Processor.antt =====
-- src/modules/payments/payments.processor.ts: the jobs of the queue `payments`. What `charge` of a
-- provider answers comes as an argument.
use Prim.Native.String.{◌++◌}
use transact_go.Outcome.{
  Exec, deposit_failed, disbursement_failed, gets, internal, ok, throw, ◌>>=◌, ◌>>◌,
}
use transact_go.Payments.Service.{audit_log, complete_deposit, complete_row, get_provider, notify}
use transact_go.Prelude.{Bool, Option, String, if◌then◌else◌, leb, none, some, ℕ, ◌+◌}
use transact_go.Prelude.Int.{ℤ}
use transact_go.Transfers.Entities.{Transfer, failed, processing}
use transact_go.Transfers.Store.{Db, transfer_fail, transfer_sent, update_transfer}

pub data ChargeStatus : Type 0 where
  success charge_pending charge_failed : ChargeStatus

pub record ChargeResult : Type 0 where
  pub status : ChargeStatus
  pub provider_reference : String
  pub message : String

-- What Bull tells a handler of its job.
pub record DepositJob : Type 0 where
  pub transfer_id : ℕ
  pub user_id : ℕ
  pub wallet_id : ℕ
  pub amount : ℤ
  pub currency : String
  pub provider : String
  pub attempts_made : ℕ

pub record WithdrawalJob : Type 0 where
  pub transfer_id : ℕ
  pub user_id : ℕ
  pub amount : ℤ
  pub currency : String
  pub provider : String

abbrev pub start_row : ℕ → Transfer → Transfer
start_row attempts_made t = record t { status = processing; attempts = attempts_made + 1 }

abbrev pub waiting_row : String → Transfer → Transfer
waiting_row reference t = record t { status = processing; provider_reference = some reference }

abbrev pub failed_row : String → Transfer → Transfer
failed_row reason t = record t { status = failed; failure_reason = some reason }

abbrev pub failed_now_row : String → ℕ → Transfer → Transfer
failed_now_row reason now t = record t {
  status = failed;
  failure_reason = some reason;
  completed_at = some now;
}

unfoldable pub settle_deposit : Bool → DepositJob → ChargeResult → ChargeStatus → Exec Db (Unit {0})
settle_deposit queue_up job result success =
    complete_deposit queue_up job.transfer_id result.provider_reference
settle_deposit queue_up job result charge_pending =
    update_transfer job.transfer_id (waiting_row result.provider_reference)
settle_deposit queue_up job result charge_failed = do
  now ← gets (λ db. db.bank.now)
  update_transfer job.transfer_id (failed_now_row result.message now)
  audit_log (transfer_fail job.user_id job.transfer_id)
  throw (internal deposit_failed)

unfoldable pub handle_deposit : Bool → DepositJob → ChargeResult → Exec Db (Unit {0})
handle_deposit queue_up job result = do
  update_transfer job.transfer_id (start_row job.attempts_made)
  get_provider job.provider
  settle_deposit queue_up job result result.status

unfoldable pub settle_withdrawal :
    Bool → WithdrawalJob → ChargeResult → ChargeStatus → Exec Db (Unit {0})
settle_withdrawal queue_up job result success = do
  now ← gets (λ db. db.bank.now)
  update_transfer job.transfer_id (complete_row result.provider_reference now)
  notify queue_up (transfer_sent job.user_id job.amount job.currency)
settle_withdrawal queue_up job result _ = do
  update_transfer job.transfer_id (failed_row result.message)
  throw (internal disbursement_failed)

unfoldable pub handle_withdrawal : Bool → WithdrawalJob → ChargeResult → Exec Db (Unit {0})
handle_withdrawal queue_up job result = do
  get_provider job.provider
  settle_withdrawal queue_up job result result.status

-- `onFailed`: `attempts` is `job.opts.attempts`, and `message` the text of the error.
unfoldable pub on_payment_failed : ℕ → ℕ → Option ℕ → String → Exec Db (Unit {0})
on_payment_failed attempts attempts_made none message db = (ok tt, db)
on_payment_failed attempts attempts_made (some transfer_id) message db =
    if leb attempts attempts_made
    then update_transfer transfer_id (failed_row ("Max retries exceeded: " ++ message)) db
    else (ok tt, db)
