-- ===== src/Wallets/Entities.antt =====
-- src/modules/wallets/entities: wallets and the ledger. The columns that no code reads back are
-- left out: the free-form JSON `metadata`, `reversalOfId` and `updatedAt`.
use transact_go.Prelude.{Bool, Option, String, false, true, ℕ}
use transact_go.Prelude.Int.{ℤ, ◌-ℤ◌}

pub data WalletStatus : Type 0 where
  active frozen closed : WalletStatus

pub data Currency : Type 0 where
  ngn usd ghs kes zar eur gbp : Currency

-- The value of the enumeration, which is compared with the currencies of requests.
abbrev pub code : Currency → String
code ngn = "NGN"
code usd = "USD"
code ghs = "GHS"
code kes = "KES"
code zar = "ZAR"
code eur = "EUR"
code gbp = "GBP"

pub record Wallet : Type 0 where
  pub id : ℕ
  pub user_id : ℕ
  pub currency : Currency
  pub balance : ℤ
  pub held_balance : ℤ
  pub status : WalletStatus
  pub label : Option String
  pub created_at : ℕ

-- The getter `availableBalance`.
abbrev pub available_balance : Wallet → ℤ
available_balance w = w.balance -ℤ w.held_balance

pub data EntryType : Type 0 where
  credit_entry debit_entry : EntryType

pub data EntryCategory : Type 0 where
  deposit withdrawal internal_credit internal_debit fee tax reversal hold hold_release :
      EntryCategory

-- The text of an entry: one that is given, or one of the two templates with the key of a wallet.
pub data Narration : Type 0 where
  text : String → Narration
  transfer_to transfer_from : ℕ → Narration

pub record LedgerEntry : Type 0 where
  pub id : ℕ
  pub wallet_id : ℕ
  pub type : EntryType
  pub category : EntryCategory
  pub amount : ℤ
  pub balance_after : ℤ
  pub transfer_id : Option ℕ
  pub provider_reference : Option String
  pub narration : Narration
  pub created_at : ℕ

abbrev pub is_active : WalletStatus → Bool
is_active active = true
is_active _ = false

abbrev pub is_closed : WalletStatus → Bool
is_closed closed = true
is_closed _ = false

abbrev pub same_category : EntryCategory → EntryCategory → Bool
same_category deposit deposit = true
same_category withdrawal withdrawal = true
same_category internal_credit internal_credit = true
same_category internal_debit internal_debit = true
same_category fee fee = true
same_category tax tax = true
same_category reversal reversal = true
same_category hold hold = true
same_category hold_release hold_release = true
same_category _ _ = false
