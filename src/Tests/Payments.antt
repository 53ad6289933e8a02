-- ===== src/Tests/Payments.antt =====
-- The theorems on deposits and withdrawals, applied.
use transact_go.Fees.Service.{build_zero_fee, calculate}
use transact_go.Fraud.Gate.{FraudGate}
use transact_go.Outcome.{Exception, err, internal, ok, queue_unavailable}
use transact_go.Payments.Completion.{complete_deposit_once}
use transact_go.Payments.Processor.{ChargeResult, DepositJob, success}
use transact_go.Payments.Service.{
  InitiateWithdrawalDto, complete_deposit, deposit_row, initiate_withdrawal, payment_fee,
  withdrawal_row,
}
use transact_go.Payments.Withdrawals.{
  Allowed, initiate_withdrawal_lost, initiate_withdrawal_outcome,
}
use transact_go.Prelude.{Bool, [], arith, false, none, refl, true, ◌∷◌, ◌≡◌, ◌⊎◌}
use transact_go.Prelude.Int.{pos, ◌+ℤ◌, ◌-ℤ◌}
use transact_go.Tests.Fixtures.{
  payer, rich, seeded_schedule, start_db, two_wallets, two_wallets-IsKeyed, two_wallets-IsValid,
}
use transact_go.Transfers.Entities.{Transfer}
use transact_go.Transfers.Store.{Db, fits_columns, process_withdrawal}
use transact_go.Wallets.Invariant.{IsValid}
use transact_go.Wallets.Movement.{total_balance}

abbrev open_gate : FraudGate
open_gate = record { blocks = λ p db. false }

abbrev payout : InitiateWithdrawalDto
payout = record {
  wallet_id = 1;
  amount = pos 300_000;
  currency = "NGN";
  provider = "flutterwave";
  narration = none;
}

abbrev payout_row : Transfer
payout_row = withdrawal_row seeded_schedule 7 payout 10 1000

initiate_withdrawal_outcome_example :
    let (outcome, db') = initiate_withdrawal seeded_schedule open_gate true 7 payout start_db in
    (((x : Exception) × (outcome ≡ err x))
      × (db' ≡ record start_db { evaluations = db'.evaluations }))
    ⊎ ((outcome ≡ ok payout_row)
        × (total_balance db'.bank
              +ℤ (pos 300_000
                  +ℤ (payment_fee seeded_schedule (pos 300_000) "NGN" "withdrawal").total_fee)
            ≡ total_balance two_wallets)
        × (db'.transfers ≡ payout_row ∷ [])
        × (db'.jobs ≡ process_withdrawal 10 7 (pos 300_000) "NGN" "flutterwave" ∷ []))
initiate_withdrawal_outcome_example =
    initiate_withdrawal_outcome seeded_schedule open_gate true 7 payout start_db refl
      two_wallets-IsKeyed

payout-Allowed :
    (queue_up : Bool) → Allowed seeded_schedule open_gate queue_up 7 payout start_db rich payer
unfolding calculate build_zero_fee fits_columns ◌+ℤ◌ ◌-ℤ◌
payout-Allowed queue_up = record {
  found = refl;
  owner = refl;
  user_found = refl;
  unblocked = refl;
  storable = refl;
  debits = record {
    found = refl;
    positive = omega arith;
    owned = refl;
    live = refl;
    funded = omega arith;
  };
}

initiate_withdrawal_lost_example :
    let (outcome, db') = initiate_withdrawal seeded_schedule open_gate false 7 payout start_db in
    (outcome ≡ err (internal queue_unavailable))
    × (db'.jobs ≡ [])
    × (total_balance db'.bank
          +ℤ (pos 300_000
              +ℤ (payment_fee seeded_schedule (pos 300_000) "NGN" "withdrawal").total_fee)
        ≡ total_balance two_wallets)
initiate_withdrawal_lost_example =
    initiate_withdrawal_lost seeded_schedule open_gate false 7 payout start_db rich payer refl
      two_wallets-IsKeyed (payout-Allowed false)

abbrev top_up : Transfer
top_up =
    deposit_row seeded_schedule 7
      (record {
        wallet_id = 1;
        amount = pos 50_000;
        currency = "NGN";
        provider = "flutterwave";
        customer_email = none;
      })
      10 1000

abbrev deposit_db : Db
deposit_db = record start_db { transfers = top_up ∷ []; next_id = 11 }

complete_deposit_once_example :
    let (outcome, db') = complete_deposit true 10 "FLW-1" deposit_db in
    (((x : Exception) × (outcome ≡ err x)) × (db' ≡ deposit_db))
    ⊎ ((total_balance db'.bank ≡ total_balance two_wallets +ℤ (top_up.amount -ℤ top_up.fee))
        × IsValid db'.bank
        × (complete_deposit true 10 "FLW-2" db' ≡ (ok tt, db')))
complete_deposit_once_example =
    complete_deposit_once 10 "FLW-1" deposit_db top_up 1 refl refl refl "FLW-2" two_wallets-IsValid

abbrev charge_job : DepositJob
charge_job = record {
  transfer_id = 10;
  user_id = 7;
  wallet_id = 1;
  amount = pos 50_000;
  currency = "NGN";
  provider = "flutterwave";
  attempts_made = 0;
}

abbrev charged : ChargeResult
charged = record { status = success; provider_reference = "FLW-1"; message = "ok" }
