-- ===== src/Wallets/Movement.antt =====
-- Where the money goes in a debit and in a credit of src/modules/wallets/wallets.service.ts.
use transact_go.Outcome.{ok}
use transact_go.Prelude.{ap, inl, inr, none, refl, some, ℕ, ◌↔◌, ◌∙◌, ◌≡◌, ◌≢◌}
use transact_go.Prelude.Int.{int_laws, pos, ℤ, ◌+ℤ◌, ◌-ℤ◌}
use transact_go.Prelude.Rows.{
  IsKeyed, find_row-update_ne, find_row-update_self, sum_by, sum_by-update, update_row-IsKeyed,
}
use transact_go.Wallets.Effects.{
  CanCredit, CanDebit, credit-inv, credit-posts, credit_entry_of, debit-inv, debit-posts,
  debit_entry_of, post,
}
use transact_go.Wallets.Entities.{EntryCategory, LedgerEntry, Wallet, closed}
use transact_go.Wallets.Service.{Bank, CreditParams, DebitParams, credit, debit, find_wallet}

abbrev pub total_balance : Bank → ℤ
total_balance b = sum_by Wallet.balance b.wallets

pub post-total_balance :
    (e : LedgerEntry) (v : ℤ) (b : Bank) (w : Wallet)
    → IsKeyed Wallet.id b.wallets
    → find_wallet e.wallet_id b ≡ some w
    → total_balance (post e v b) +ℤ w.balance ≡ total_balance b +ℤ v
post-total_balance e v b w h found =
    sum_by-update Wallet.id Wallet.balance e.wallet_id (λ u. record u { balance = v }) b.wallets w h
      found

pub post-find_wallet :
    (j : ℕ) (e : LedgerEntry) (v : ℤ) (b : Bank)
    → j ≢ e.wallet_id
    → find_wallet j (post e v b) ≡ find_wallet j b
post-find_wallet j e v b ne =
    find_row-update_ne Wallet.id j e.wallet_id (λ u. record u { balance = v }) b.wallets (λ u. refl)
      ne

pub post-find_wallet_self :
    (e : LedgerEntry) (v : ℤ) (b : Bank) (w : Wallet)
    → find_wallet e.wallet_id b ≡ some w
    → find_wallet e.wallet_id (post e v b) ≡ some (record w { balance = v })
post-find_wallet_self e v b w found =
    find_row-update_self Wallet.id e.wallet_id (λ u. record u { balance = v }) b.wallets w
      (λ u. refl) found

-- What a debit or credit of `amount` that returns has done to the bank.
pub record Moves (amount before_amount : ℤ) (wallet_id : ℕ) (b b' : Bank) : Type 0 where
  pub total : total_balance b' +ℤ before_amount ≡ total_balance b +ℤ amount
  pub others : (j : ℕ) → j ≢ wallet_id → find_wallet j b' ≡ find_wallet j b
  pub keyed : IsKeyed Wallet.id b'.wallets

-- A debit returns exactly when the amount is positive and the wallet exists, belongs to the user,
-- is active, and has a balance that covers the amount beside what is held.
pub debit_iff :
    (p : DebitParams) (b : Bank)
    → ((e : LedgerEntry) × (b' : Bank) × (debit p b ≡ (ok e, b'))) ↔ ((w : Wallet) × CanDebit p b w)
debit_iff p b = (onward, backward)
  where
    onward :
        (e : LedgerEntry) × (b' : Bank) × (debit p b ≡ (ok e, b')) → (w : Wallet) × CanDebit p b w
    onward r = elim (debit-inv p b) [ inl (x, refused) ↦ cc (refused, r.2) | inr c ↦ c ]

    backward :
        (w : Wallet) × CanDebit p b w → (e : LedgerEntry) × (b' : Bank) × (debit p b ≡ (ok e, b'))
    backward (w, c) = (
      debit_entry_of p w b,
      post (debit_entry_of p w b) (w.balance -ℤ p.amount) b,
      debit-posts p b w c,
    )

-- A credit returns exactly when the amount is positive and the wallet exists and is not closed.
pub credit_iff :
    (p : CreditParams) (b : Bank)
    → ((e : LedgerEntry) × (b' : Bank) × (credit p b ≡ (ok e, b')))
      ↔ ((w : Wallet) × CanCredit p b w)
credit_iff p b = (onward, backward)
  where
    onward :
        (e : LedgerEntry) × (b' : Bank) × (credit p b ≡ (ok e, b')) → (w : Wallet) × CanCredit p b w
    onward r = elim (credit-inv p b) [ inl (x, refused) ↦ cc (refused, r.2) | inr c ↦ c ]

    backward :
        (w : Wallet) × CanCredit p b w → (e : LedgerEntry) × (b' : Bank) × (credit p b ≡ (ok e, b'))
    backward (w, c) = (
      credit_entry_of p w b,
      post (credit_entry_of p w b) (w.balance +ℤ p.amount) b,
      credit-posts p b w c,
    )

-- Where no two wallets share a key, a debit whose conditions hold takes its amount out of the sum
-- of all balances, and touches no other wallet.
pub debit-Moves :
    (p : DebitParams) (b : Bank) (w : Wallet)
    → IsKeyed Wallet.id b.wallets
    → CanDebit p b w
    → Moves (pos 0) p.amount p.wallet_id b (debit p b).1
debit-Moves p b w h c = rw (debit-posts p b w c) (record {
  total =
      grind
        (int_laws, post-total_balance (debit_entry_of p w b) (w.balance -ℤ p.amount) b w h c.found);
  others = λ j ne. post-find_wallet j (debit_entry_of p w b) (w.balance -ℤ p.amount) b ne;
  keyed =
      update_row-IsKeyed Wallet.id p.wallet_id (λ u. record u { balance = w.balance -ℤ p.amount })
        b.wallets (λ u. refl) h;
})

-- Where no two wallets share a key, a credit whose conditions hold adds its amount to the sum of
-- all balances, and touches no other wallet.
pub credit-Moves :
    (p : CreditParams) (b : Bank) (w : Wallet)
    → IsKeyed Wallet.id b.wallets
    → CanCredit p b w
    → Moves p.amount (pos 0) p.wallet_id b (credit p b).1
credit-Moves p b w h c = rw (credit-posts p b w c) (record {
  total =
      grind (
        int_laws,
        post-total_balance (credit_entry_of p w b) (w.balance +ℤ p.amount) b w h c.found,
      );
  others = λ j ne. post-find_wallet j (credit_entry_of p w b) (w.balance +ℤ p.amount) b ne;
  keyed =
      update_row-IsKeyed Wallet.id p.wallet_id (λ u. record u { balance = w.balance +ℤ p.amount })
        b.wallets (λ u. refl) h;
})

abbrev pub refund_of : DebitParams → EntryCategory → CreditParams
refund_of p c = record {
  wallet_id = p.wallet_id;
  amount = p.amount;
  category = c;
  narration = p.narration;
  transfer_id = p.transfer_id;
  provider_reference = none;
}

-- Crediting what was debited, by a debit whose conditions hold, gives the wallet back as it was.
pub credit-debit :
    (p : DebitParams) (b : Bank) (w : Wallet) (c : EntryCategory)
    → CanDebit p b w
    → find_wallet p.wallet_id (credit (refund_of p c) (debit p b).1).1 ≡ some w
credit-debit p b w c can =
    let low = w.balance -ℤ p.amount in
    let b' : Bank = post (debit_entry_of p w b) low b in
    let w' : Wallet = record w { balance = low } in
    let refund : CreditParams = refund_of p c in
    let found' : find_wallet p.wallet_id b' ≡ some w' =
      post-find_wallet_self (debit_entry_of p w b) low b w can.found in
    let still_open : w.status ≢ closed = λ shut. cc (can.live, shut) in
    let can_credit : CanCredit refund b' w' = record {
      found = found';
      positive = can.positive;
      open_wallet = still_open;
    } in
    let restored : low +ℤ p.amount ≡ w.balance = omega int_laws in
    rw (debit-posts p b w can, credit-posts refund b' w' can_credit)
      (post-find_wallet_self (credit_entry_of refund w' b') (low +ℤ p.amount) b' w' found'
        ∙ ap (λ v. some (record w { balance = v })) restored)
