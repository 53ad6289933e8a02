-- ===== src/Wallets/Effects.antt =====
-- What `debit` and `credit` of src/modules/wallets/wallets.service.ts do on every branch: the
-- entry that they post and the conditions under which they post it.
use transact_go.Outcome.{
  Exception, access_denied, bad_request, credit_not_positive, debit_not_positive, err, forbidden,
  insufficient_funds, not_found, ok, wallet_closed, wallet_not_active, wallet_not_found,
}
use transact_go.Prelude.{
  Bool-cases, Option-cases, arith, inl, inr, some, true, ◌+◌, ◌==◌, ◌∷◌, ◌≡◌, ◌≢◌, ◌⊎◌,
}
use transact_go.Prelude.Int.{leb_ℤ, ltb_ℤ, pos, ℤ, ◌+ℤ◌, ◌-ℤ◌, ◌<ℤ◌, ◌≤ℤ◌}
use transact_go.Prelude.Rows.{update_row}
use transact_go.Wallets.Entities.{
  LedgerEntry, Wallet, WalletStatus, active, available_balance, closed, credit_entry, debit_entry,
  is_active, is_closed,
}
use transact_go.Wallets.Service.{Bank, CreditParams, DebitParams, credit, debit, find_wallet}

-- A change of one balance, with an entry that accounts for it.
abbrev pub post : LedgerEntry → ℤ → Bank → Bank
post e v b = record b {
  wallets = update_row Wallet.id e.wallet_id (λ w. record w { balance = v }) b.wallets;
  ledger = e ∷ b.ledger;
  next_id = b.next_id + 1;
}

-- The entries that the operations write.
abbrev pub debit_entry_of : DebitParams → Wallet → Bank → LedgerEntry
debit_entry_of p w b = record {
  id = b.next_id;
  wallet_id = p.wallet_id;
  type = debit_entry;
  category = p.category;
  amount = p.amount;
  balance_after = w.balance -ℤ p.amount;
  transfer_id = p.transfer_id;
  provider_reference = p.provider_reference;
  narration = p.narration;
  created_at = b.now;
}

abbrev pub credit_entry_of : CreditParams → Wallet → Bank → LedgerEntry
credit_entry_of p w b = record {
  id = b.next_id;
  wallet_id = p.wallet_id;
  type = credit_entry;
  category = p.category;
  amount = p.amount;
  balance_after = w.balance +ℤ p.amount;
  transfer_id = p.transfer_id;
  provider_reference = p.provider_reference;
  narration = p.narration;
  created_at = b.now;
}

pub record CanDebit (p : DebitParams) (b : Bank) (w : Wallet) : Type 0 where
  pub found : find_wallet p.wallet_id b ≡ some w
  pub positive : pos 0 <ℤ p.amount
  pub owned : w.user_id ≡ p.user_id
  pub live : w.status ≡ active
  pub funded : p.amount ≤ℤ available_balance w

pub record CanCredit (p : CreditParams) (b : Bank) (w : Wallet) : Type 0 where
  pub found : find_wallet p.wallet_id b ≡ some w
  pub positive : pos 0 <ℤ p.amount
  pub open_wallet : w.status ≢ closed

-- A debit that can be made is posted.
pub debit-posts :
    (p : DebitParams) (b : Bank) (w : Wallet)
    → CanDebit p b w
    → let e = debit_entry_of p w b in debit p b ≡ (ok e, post e (w.balance -ℤ p.amount) b)
unfolding debit
debit-posts p b w c = ground arith

pub credit-posts :
    (p : CreditParams) (b : Bank) (w : Wallet)
    → CanCredit p b w
    → let e = credit_entry_of p w b in credit p b ≡ (ok e, post e (w.balance +ℤ p.amount) b)
unfolding credit
credit-posts p b w c = ground arith

is_active→eq : (s : WalletStatus) → is_active s ≡ true → s ≡ active
is_active→eq s h = ground arith

pub debit-inv :
    (p : DebitParams) (b : Bank)
    → ((x : Exception) × (debit p b ≡ (err x, b))) ⊎ ((w : Wallet) × CanDebit p b w)
unfolding debit
debit-inv p b = elim (Bool-cases (leb_ℤ p.amount (pos 0))) [
  | inl bad ↦ inl (bad_request debit_not_positive, ground arith)
  | inr good ↦ elim (Option-cases (find_wallet p.wallet_id b)) [
    | inl missing ↦ inl (not_found wallet_not_found, ground arith)
    | inr (w, found) ↦ elim (Bool-cases (w.user_id == p.user_id)) [
      | inr stranger ↦ inl (forbidden access_denied, ground arith)
      | inl owner ↦ elim (Bool-cases (is_active w.status)) [
        | inr frozen_wallet ↦ inl (bad_request wallet_not_active, ground arith)
        | inl live ↦ elim (Bool-cases (ltb_ℤ (w.balance -ℤ w.held_balance) p.amount)) [
          | inl short ↦ inl (bad_request insufficient_funds, ground arith)
          | inr covered ↦ inr (
            w,
            record {
              found = found;
              positive = ground arith;
              owned = ground arith;
              live = is_active→eq w.status live;
              funded = ground arith;
            },
          )
        ]
      ]
    ]
  ]
]

pub credit-inv :
    (p : CreditParams) (b : Bank)
    → ((x : Exception) × (credit p b ≡ (err x, b))) ⊎ ((w : Wallet) × CanCredit p b w)
unfolding credit
credit-inv p b = elim (Bool-cases (leb_ℤ p.amount (pos 0))) [
  | inl bad ↦ inl (bad_request credit_not_positive, ground arith)
  | inr good ↦ elim (Option-cases (find_wallet p.wallet_id b)) [
    | inl missing ↦ inl (not_found wallet_not_found, ground arith)
    | inr (w, found) ↦ elim (Bool-cases (is_closed w.status)) [
      | inl shut ↦ inl (bad_request wallet_closed, ground arith)
      | inr live ↦
          inr (w, record { found = found; positive = ground arith; open_wallet = ground arith })
    ]
  ]
]
