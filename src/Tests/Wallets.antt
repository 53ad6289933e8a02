-- ===== src/Tests/Wallets.antt =====
-- The theorems on wallets, applied.
use transact_go.Outcome.{ok}
use transact_go.Prelude.{List, [], arith, none, refl, some, true, ◌∷◌, ◌≡◌}
use transact_go.Prelude.Int.{pos, ◌+ℤ◌, ◌-ℤ◌, ◌≤ℤ◌}
use transact_go.Tests.Fixtures.{rich, two_wallets}
use transact_go.Wallets.Effects.{CanCredit, CanDebit}
use transact_go.Wallets.Entities.{EntryCategory, Wallet, ngn, text}
use transact_go.Wallets.Movement.{refund_of}
use transact_go.Wallets.Preserved.{
  Operation, create_op, credit_op, debit_op, empty_bank, perform, reconcile_balance-run, run,
  run_covers,
}
use transact_go.Wallets.Service.{
  DebitParams, create_wallet, credit, debit, find_wallet, reconcile_balance,
}

abbrev operations : List Operation
operations =
    create_op 7 ngn
    ∷ credit_op (record {
      wallet_id = 0;
      amount = pos 500;
      category = EntryCategory.deposit;
      narration = text "";
      transfer_id = none;
      provider_reference = none;
    })
    ∷ create_op 7 ngn
    ∷ debit_op (record {
      wallet_id = 0;
      user_id = 7;
      amount = pos 200;
      category = EntryCategory.withdrawal;
      narration = text "";
      transfer_id = none;
      provider_reference = none;
    })
    ∷ []

abbrev final_wallet : Wallet
final_wallet = record rich { id = 0; balance = pos 300; created_at = 0 }

final_found : find_wallet 0 (run operations empty_bank) ≡ some final_wallet
unfolding run perform create_wallet credit debit ◌+ℤ◌ ◌-ℤ◌
final_found = refl

reconcile_balance-run_example : reconcile_balance 0 (run operations empty_bank) ≡ (
  ok (record { wallet_balance = pos 300; calculated_balance = pos 300; is_consistent = true }),
  run operations empty_bank,
)
reconcile_balance-run_example = reconcile_balance-run operations 0 final_wallet final_found

run_covers_example : (pos 0 ≤ℤ pos 300) × (pos 0 ≤ℤ pos 300)
run_covers_example = run_covers operations 0 final_wallet final_found

abbrev spend : DebitParams
spend = record {
  wallet_id = 1;
  user_id = 7;
  amount = pos 400_000;
  category = EntryCategory.withdrawal;
  narration = text "";
  transfer_id = none;
  provider_reference = none;
}

spend-CanDebit : CanDebit spend two_wallets rich
unfolding ◌-ℤ◌
spend-CanDebit = record {
  found = refl;
  positive = omega arith;
  owned = refl;
  live = refl;
  funded = omega arith;
}

refund-CanCredit : CanCredit (refund_of spend EntryCategory.reversal) two_wallets rich
refund-CanCredit = record { found = refl; positive = omega arith; open_wallet = λ shut. cc }
