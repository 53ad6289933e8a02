-- ===== src/Tests/Fixtures.antt =====
-- Two users with a wallet each, a fee schedule with the seeded rule for transfers, and an empty
-- history.
use transact_go.Cache.{Cache}
use transact_go.Fees.Bounds.{IsSane}
use transact_go.Fees.Entities.{FeeRule}
use transact_go.Fees.Rules.{ngn_internal}
use transact_go.Prelude.{
  Bool, Bool-cases, Option, String, [], arith, false, if◌then◌else◌, inl, inr, none, refl, some,
  str_eq, true, ℕ, ◌%◌, ◌-◌, ◌∷◌, ◌≡◌, ◌≢◌,
}
use transact_go.Prelude.Int.{pos, ◌+ℤ◌}
use transact_go.Prelude.Rows.{IsKeyed}
use transact_go.Transfers.Schedule.{rule_schedule}
use transact_go.Transfers.Service.{FeeSchedule}
use transact_go.Transfers.Store.{Db}
use transact_go.Users.Entities.{User, UserStatus, tier_1}
use transact_go.Wallets.Entities.{
  EntryCategory, LedgerEntry, Wallet, WalletStatus, credit_entry, ngn, text,
}
use transact_go.Wallets.Invariant.{IsValid}
use transact_go.Wallets.Service.{Bank}

abbrev pub rich : Wallet
rich = record {
  id = 1;
  user_id = 7;
  currency = ngn;
  balance = pos 1_000_000;
  held_balance = pos 0;
  status = WalletStatus.active;
  label = none;
  created_at = 100;
}

abbrev pub poor : Wallet
poor = record rich { id = 2; user_id = 8; balance = pos 0 }

abbrev pub first_entry : LedgerEntry
first_entry = record {
  id = 3;
  wallet_id = 1;
  type = credit_entry;
  category = EntryCategory.deposit;
  amount = pos 1_000_000;
  balance_after = pos 1_000_000;
  transfer_id = none;
  provider_reference = none;
  narration = text "";
  created_at = 200;
}

abbrev pub two_wallets : Bank
two_wallets = record {
  wallets = poor ∷ rich ∷ [];
  ledger = first_entry ∷ [];
  next_id = 4;
  now = 1000;
}

pub two_wallets-IsKeyed : IsKeyed Wallet.id two_wallets.wallets
two_wallets-IsKeyed = (refl, (refl, tt))

pub two_wallets-IsValid : IsValid two_wallets
unfolding ◌+ℤ◌
two_wallets-IsValid = record {
  keyed = two_wallets-IsKeyed;
  sound = (
    record { held = omega arith; covered = omega arith; booked = refl },
    (record { held = omega arith; covered = omega arith; booked = refl }, tt),
  );
  wallets_fresh = (omega arith, (omega arith, tt));
  ledger_fresh = (omega arith, tt);
}

abbrev pub payer : User
payer = record {
  id = 7;
  email = "a@example.org";
  first_name = "A";
  last_name = "B";
  password_hash = "";
  status = UserStatus.active;
  kyc_tier = tier_1;
  refresh_token_hash = none;
  phone = none;
  failed_login_attempts = 0;
  locked_until = none;
  last_login_at = none;
  created_at = 50;
}

abbrev pub start_db : Db
start_db = record {
  bank = two_wallets;
  transfers = [];
  users = payer ∷ [];
  next_id = 10;
  evaluations = [];
  jobs = [];
  notifications = [];
  audit = [];
}

-- The first moment of a day of 600 units.
abbrev pub midnight_of : ℕ → ℕ
midnight_of now = now - now % 600

pub ngn_internal-IsSane : (id : ℕ) → IsSane (ngn_internal id)
ngn_internal-IsSane id = record {
  flat_nonneg = omega arith;
  min_nonneg = omega arith;
  cap_nonneg = λ c e. ground arith;
  tiers_nonneg = λ ts e. ground arith;
}

abbrev pub seeded_lookup : String → String → Option FeeRule
seeded_lookup currency kind = if str_eq kind "internal" then some (ngn_internal 1) else none

pub seeded_lookup-IsSane :
    (currency kind : String) (r : FeeRule) → seeded_lookup currency kind ≡ some r → IsSane r
seeded_lookup-IsSane currency kind r e = elim (Bool-cases (str_eq kind "internal")) [
  | inl yes_kind ↦
      let same : ngn_internal 1 ≡ r = ground arith in rw same at (ngn_internal-IsSane 1)
  | inr no_kind ↦ ground arith
]

abbrev pub seeded_schedule : FeeSchedule
seeded_schedule = rule_schedule seeded_lookup seeded_lookup-IsSane

-- A cache that forgets nothing, for keys with a test of equality.
abbrev pub table_cache :
    {K V : Type 0} (same : K → K → Bool)
    → ((k : K) → same k k ≡ true)
    → ((j k : K) → j ≢ k → same j k ≡ false)
    → Cache K V
table_cache {K} {V} same same_refl same_ne = record {
  State = K → Option V;
  get = λ k s. s k;
  set = λ k v ttl s. λ j. if same j k then some v else s j;
  del = λ k s. λ j. if same j k then none else s j;
  get-set = λ k v ttl s. inl (rw (same_refl k) refl);
  get-set_ne = λ j k v ttl s ne. inl (rw (same_ne j k ne) refl);
  get-del = λ k s. rw (same_refl k) refl;
  get-del_ne = λ j k s ne. inl (rw (same_ne j k ne) refl);
}

-- A cache that forgets everything at once.
abbrev pub no_cache : {K V : Type 0} → Cache K V
no_cache = record {
  State = Unit {0};
  get = λ k s. none;
  set = λ k v ttl s. s;
  del = λ k s. s;
  get-set = λ k v ttl s. inr refl;
  get-set_ne = λ j k v ttl s ne. inl refl;
  get-del = λ k s. refl;
  get-del_ne = λ j k s ne. inl refl;
}
