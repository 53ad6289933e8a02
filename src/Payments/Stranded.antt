-- ===== src/Payments/Stranded.antt =====
-- The jobs of src/modules/payments/payments.processor.ts, the bank and the keys of the transfers.
use Prim.Native.String.{◌++◌}
use transact_go.Outcome.{bind-err, bind-ok}
use transact_go.Payments.Deposits.{get_provider-inv, settle_success, started}
use transact_go.Payments.Processor.{
  ChargeResult, ChargeStatus, DepositJob, WithdrawalJob, charge_failed, charge_pending,
  failed_now_row, failed_row, handle_deposit, handle_withdrawal, on_payment_failed, settle_deposit,
  settle_withdrawal, start_row, success, waiting_row,
}
use transact_go.Payments.Service.{complete_row, get_provider}
use transact_go.Prelude.{
  Bool, Bool-cases, Option, String, if◌then◌else◌, inl, inr, leb, none, refl, some, ℕ, ◌≡◌,
}
use transact_go.Prelude.Rows.{IsKeyed, update_row, update_row-IsKeyed}
use transact_go.Transfers.Entities.{Transfer}
use transact_go.Transfers.Store.{Db}
use transact_go.Wallets.Service.{Bank}

-- The bank is as it was at first, and no two transfers share a key.
pub record IsStranded (b : Bank) (db : Db) : Type 0 where
  pub bank : db.bank ≡ b
  pub keyed : IsKeyed Transfer.id db.transfers

pub update-IsStranded :
    (b : Bank) (k : ℕ) (f : Transfer → Transfer) (db : Db)
    → ((t : Transfer) → (f t).id ≡ t.id)
    → IsStranded b db
    → IsStranded b (record db { transfers = update_row Transfer.id k f db.transfers })
update-IsStranded b k f db keep h = record {
  bank = h.bank;
  keyed = update_row-IsKeyed Transfer.id k f db.transfers keep h.keyed;
}

module _ (queue_up : Bool) (b : Bank) (db : Db) (h : IsStranded b db) where
  started-IsStranded : (job : DepositJob) → IsStranded b (started job db)
  started-IsStranded job =
      update-IsStranded b job.transfer_id (start_row job.attempts_made) db (λ t. refl) h

  settle_deposit-IsStranded :
      (job : DepositJob) (result : ChargeResult) (s : ChargeStatus)
      → IsStranded b (settle_deposit queue_up job result s (started job db)).1
  unfolding settle_deposit
  settle_deposit-IsStranded job result success =
      rw (settle_success queue_up job result db) (started-IsStranded job)
  settle_deposit-IsStranded job result charge_pending =
      update-IsStranded b job.transfer_id (waiting_row result.provider_reference) (started job db)
        (λ t. refl) (started-IsStranded job)
  settle_deposit-IsStranded job result charge_failed =
      let marked : IsStranded b (record (started job db) {
        transfers =
            update_row Transfer.id job.transfer_id (failed_now_row result.message db.bank.now)
              (started job db).transfers;
      }) =
        update-IsStranded b job.transfer_id (failed_now_row result.message db.bank.now)
          (started job db) (λ t. refl) (started-IsStranded job) in
      record { bank = marked.bank; keyed = marked.keyed }

  pub handle_deposit-IsStranded :
      (job : DepositJob) (result : ChargeResult)
      → IsStranded b (handle_deposit queue_up job result db).1
  unfolding handle_deposit
  handle_deposit-IsStranded job result = elim (get_provider-inv job.provider (started job db)) [
    | inl unknown ↦
        rw
          (bind-err (get_provider job.provider)
            (λ _. settle_deposit queue_up job result result.status) unknown)
          (started-IsStranded job)
    | inr (p, known) ↦
        rw
          (bind-ok (get_provider job.provider)
            (λ _. settle_deposit queue_up job result result.status) known)
          (settle_deposit-IsStranded job result result.status)
  ]

  settle_withdrawal-IsStranded :
      (job : WithdrawalJob) (result : ChargeResult) (s : ChargeStatus)
      → IsStranded b (settle_withdrawal queue_up job result s db).1
  unfolding settle_withdrawal
  settle_withdrawal-IsStranded job result success =
      let marked : IsStranded b (record db {
        transfers =
            update_row Transfer.id job.transfer_id
              (complete_row result.provider_reference db.bank.now) db.transfers;
      }) =
        update-IsStranded b job.transfer_id (complete_row result.provider_reference db.bank.now) db
          (λ t. refl) h in
      elim (Bool-cases queue_up) [
        | inl up ↦ rw (up, if◌then◌else◌) (record { bank = marked.bank; keyed = marked.keyed })
        | inr down ↦ rw (down, if◌then◌else◌) marked
      ]
  settle_withdrawal-IsStranded job result _ =
      update-IsStranded b job.transfer_id (failed_row result.message) db (λ t. refl) h

  pub handle_withdrawal-IsStranded :
      (job : WithdrawalJob) (result : ChargeResult)
      → IsStranded b (handle_withdrawal queue_up job result db).1
  unfolding handle_withdrawal
  handle_withdrawal-IsStranded job result = elim (get_provider-inv job.provider db) [
    | inl unknown ↦
        rw
          (bind-err (get_provider job.provider)
            (λ _. settle_withdrawal queue_up job result result.status) unknown)
          h
    | inr (p, known) ↦
        rw
          (bind-ok (get_provider job.provider)
            (λ _. settle_withdrawal queue_up job result result.status) known)
          (settle_withdrawal-IsStranded job result result.status)
  ]

  pub on_payment_failed-IsStranded :
      (attempts made : ℕ) (id : Option ℕ) (message : String)
      → IsStranded b (on_payment_failed attempts made id message db).1
  unfolding on_payment_failed
  on_payment_failed-IsStranded attempts made none message = h
  on_payment_failed-IsStranded attempts made (some k) message =
      elim (Bool-cases (leb attempts made)) [
        | inl spent ↦ rw spent (
            update-IsStranded b k (failed_row ("Max retries exceeded: " ++ message)) db (λ t. refl)
              h)
        | inr left ↦ rw left h
      ]
