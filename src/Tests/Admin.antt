-- ===== src/Tests/Admin.antt =====
-- The theorems on the administration, applied to one account, one wallet and the seeded fee rule.
use transact_go.Admin.Accounts.{activate_user-login, freeze_wallet-debit, suspend_user-login}
use transact_go.Admin.Dto.{UpdateFeeRuleDto}
use transact_go.Admin.FeeRules.{calculate_fee-update_fee_rule}
use transact_go.Admin.Service.{AdminDb, activate_user, freeze_wallet, suspend_user, update_fee_rule}
use transact_go.Auth.Guards.{validate}
use transact_go.Auth.Service.{AuthResponse, LoginDto, login, payload_of}
use transact_go.Auth.Sessions.{response}
use transact_go.Cache.{Cache}
use transact_go.Fees.Entities.{FeeRule}
use transact_go.Fees.Rules.{RuleKey, best_rule, calculate_fee, ngn_internal}
use transact_go.Fees.Service.{FeeCalculationParams, calculate}
use transact_go.Outcome.{account_suspended, err, ok, unauthorized}
use transact_go.Prelude.{[], arith, false, none, refl, some, ℕ, ◌∷◌, ◌≡◌, ◌≢◌}
use transact_go.Prelude.Int.{pos}
use transact_go.Tests.Auth.{member, members, plain_bcrypt, plain_jwt}
use transact_go.Tests.Fixtures.{no_cache, rich, two_wallets}
use transact_go.Users.Entities.{UserStatus}
use transact_go.Wallets.Entities.{EntryCategory, LedgerEntry, text}
use transact_go.Wallets.Service.{Bank, CreditParams, DebitParams, credit, debit}

abbrev no_fee_cache : Cache RuleKey FeeRule
no_fee_cache = no_cache

abbrev office : AdminDb no_fee_cache (Unit {0}) (Unit {0})
office = record {
  auth = members;
  bank = two_wallets;
  fees = record { table = record { rules = ngn_internal 1 ∷ []; next_id = 2 }; cache = tt };
  fraud = record {
    rules = [];
    alerts = [];
    transfers = [];
    next_id = 1;
    now = 1000;
    outages = [];
    cached_rules = tt;
    counters = tt;
  };
  submissions = [];
  trail = record { logs = []; next_id = 1 };
}

abbrev knock : LoginDto
knock = record { email = "a@example.org"; password = "right" }

suspend_user-login_example :
    let after =
      (suspend_user no_fee_cache
        (Unit {0})
        (Unit {0})
        false
        7
        3
        (record { reason = "x" })
        office).auth in
    ((salt : ℕ) (r : AuthResponse) → (login plain_bcrypt plain_jwt salt knock after).0 ≢ ok r)
    × (validate (payload_of member) after ≡ err (unauthorized account_suspended))
suspend_user-login_example =
    suspend_user-login plain_bcrypt plain_jwt no_fee_cache (Unit {0}) (Unit {0}) false 3
      (record { reason = "x" }) knock member office refl refl

activate_user-login_example :
    let after = (activate_user no_fee_cache (Unit {0}) (Unit {0}) false 7 3 office).auth in
    (login plain_bcrypt plain_jwt 5 knock after).0
    ≡ ok (response plain_jwt (record member { status = UserStatus.active }) after.now)
activate_user-login_example =
    activate_user-login plain_bcrypt plain_jwt no_fee_cache (Unit {0}) (Unit {0}) false 3 5 knock
      member office refl refl

abbrev take_100 : DebitParams
take_100 = record {
  wallet_id = 1;
  user_id = 7;
  amount = pos 100;
  category = EntryCategory.withdrawal;
  narration = text "";
  transfer_id = none;
  provider_reference = none;
}

abbrev give_100 : CreditParams
give_100 = record {
  wallet_id = 1;
  amount = pos 100;
  category = EntryCategory.deposit;
  narration = text "";
  transfer_id = none;
  provider_reference = none;
}

freeze_wallet-debit_example :
    let after =
      (freeze_wallet no_fee_cache
        (Unit {0})
        (Unit {0})
        false
        1
        3
        (record { reason = "x" })
        office).bank in
    ((e : LedgerEntry) (b' : Bank) → debit take_100 after ≢ (ok e, b'))
    × ((e : LedgerEntry) × (b' : Bank) × (credit give_100 after ≡ (ok e, b')))
freeze_wallet-debit_example =
    freeze_wallet-debit no_fee_cache (Unit {0}) (Unit {0}) false 3 (record { reason = "x" }) rich
      take_100 give_100 office refl refl refl (omega arith)

abbrev switch_off : UpdateFeeRuleDto
switch_off = record {
  name = none;
  cap = none;
  percentage = none;
  flat_amount = none;
  tax_rate = none;
  is_active = some false;
  tier_config = none;
}

abbrev sending : FeeCalculationParams
sending = record { amount = pos 400_000; currency = "NGN"; transaction_type = "internal" }

calculate_fee-update_fee_rule_example :
    let after =
      (update_fee_rule no_fee_cache (Unit {0}) (Unit {0}) false 1 switch_off 3 office).1.fees in
    (calculate_fee no_fee_cache sending after).0
    ≡ calculate (best_rule ("NGN", "internal") after.table.rules) sending
calculate_fee-update_fee_rule_example =
    calculate_fee-update_fee_rule no_fee_cache false 1 switch_off 3 sending office
      (record { agrees = λ k r e. cc e }) (refl, tt) ((refl, refl), tt)
