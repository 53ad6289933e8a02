-- ===== src/Payments/Deposits.antt =====
-- What becomes of a deposit in the job of src/modules/payments/payments.processor.ts and in
-- `completeDeposit`, which acts on a pending transfer only.
use transact_go.Outcome.{bad_request, err, ok, unknown_provider}
use transact_go.Payments.Processor.{
  ChargeResult, ChargeStatus, DepositJob, charge_failed, charge_pending, handle_deposit,
  settle_deposit, start_row, success,
}
use transact_go.Payments.Service.{
  Provider, complete_deposit, complete_if_pending, flutterwave, get_provider, stripe,
}
use transact_go.Prelude.{
  Bool, Bool-cases, List, Option-cases, String, [], ap, arith, false, inl, inr, refl, some, str_eq,
  true, ℕ, ◌==◌, ◌∷◌, ◌≡◌, ◌⊎◌,
}
use transact_go.Prelude.Rows.{find_row, update_row}
use transact_go.Transfers.Entities.{Transfer, is_pending}
use transact_go.Transfers.Store.{Db, find_transfer}

is_pending-start_row : (n : ℕ) (t : Transfer) → is_pending (start_row n t).status ≡ false
is_pending-start_row n t = refl

-- A transfer that is found after the job has marked it is not pending.
found_started :
    (k n : ℕ) (t : List Transfer) (x : Transfer)
    → find_row Transfer.id k (update_row Transfer.id k (start_row n) t) ≡ some x
    → is_pending x.status ≡ false
found_started k n [] x e = cc
found_started k n (t ∷ ts) x e = elim (Bool-cases (t.id == k)) [
  | inl here ↦ ground arith
  | inr later ↦ found_started k n ts x (ground arith)
]

-- A call for a transfer that is not pending returns at once and changes nothing.
pub complete_deposit_skips :
    (queue_up : Bool) (k : ℕ) (r : String) (db : Db)
    → ((x : Transfer) → find_transfer k db ≡ some x → is_pending x.status ≡ false)
    → complete_deposit queue_up k r db ≡ (ok tt, db)
unfolding complete_deposit
complete_deposit_skips queue_up k r db h = elim (Option-cases (find_transfer k db)) [
  | inl missing ↦ rw missing refl
  | inr (x, found) ↦ rw (found, complete_if_pending, h x found) refl
]

pub get_provider-inv :
    (name : String) (db : Db)
    → (get_provider name db ≡ (err (bad_request unknown_provider), db))
      ⊎ ((p : Provider) × (get_provider name db ≡ (ok p, db)))
unfolding get_provider
get_provider-inv name db = elim (Bool-cases (str_eq name "flutterwave")) [
  | inl f ↦ inr (flutterwave, rw f refl)
  | inr not_f ↦ elim (Bool-cases (str_eq name "stripe")) [
    | inl s ↦ inr (stripe, rw (not_f, s) refl)
    | inr not_s ↦ inl (rw (not_f, not_s) refl)
  ]
]

-- The database after a deposit job has marked its transfer.
abbrev pub started : DepositJob → Db → Db
started job db = record db {
  transfers = update_row Transfer.id job.transfer_id (start_row job.attempts_made) db.transfers;
}

pub settle_success :
    (queue_up : Bool) (job : DepositJob) (result : ChargeResult) (db : Db)
    → settle_deposit queue_up job result success (started job db) ≡ (ok tt, started job db)
unfolding settle_deposit
settle_success queue_up job result db =
    complete_deposit_skips queue_up job.transfer_id result.provider_reference (started job db)
      (found_started job.transfer_id job.attempts_made db.transfers)

settle_deposit-bank :
    (queue_up : Bool) (job : DepositJob) (result : ChargeResult) (s : ChargeStatus) (db : Db)
    → (settle_deposit queue_up job result s (started job db)).1.bank ≡ db.bank
unfolding settle_deposit
settle_deposit-bank queue_up job result success db =
    ap (λ r. r.1.bank) (settle_success queue_up job result db)
settle_deposit-bank queue_up job result charge_pending db = refl
settle_deposit-bank queue_up job result charge_failed db = refl

-- Whatever the provider answers, a deposit job leaves every wallet and the whole ledger as they
-- were: not even a charge that succeeded is credited, since `completeDeposit` only acts on a pending
-- transfer and the job has just marked it as processing.
pub handle_deposit-bank :
    (queue_up : Bool) (job : DepositJob) (result : ChargeResult) (db : Db)
    → (handle_deposit queue_up job result db).1.bank ≡ db.bank
unfolding handle_deposit
handle_deposit-bank queue_up job result db = elim (get_provider-inv job.provider (started job db)) [
  | inl unknown ↦ ground arith
  | inr (p, known) ↦ ground (arith, settle_deposit-bank queue_up job result result.status db)
]

-- A deposit job whose charge by Flutterwave succeeded returns, and all that it has done is to mark
-- the transfer as processing and count the attempt: it is neither completed nor credited.
pub handle_deposit-success :
    (queue_up : Bool) (job : DepositJob) (result : ChargeResult) (db : Db)
    → result.status ≡ success
    → str_eq job.provider "flutterwave" ≡ true
    → handle_deposit queue_up job result db ≡ (ok tt, started job db)
unfolding handle_deposit get_provider
handle_deposit-success queue_up job result db charged name =
    ground (arith, settle_success queue_up job result db)
