-- ===== src/Wallets/Invariant.antt =====
-- The invariant of the bank of src/modules/wallets/wallets.service.ts: every balance is what the
-- ledger says and covers what is held, and no key is used twice.
use transact_go.Prelude.{
  All, All-map, List, ap, arith, refl, some, sym, ℕ, ◌+◌, ◌<◌, ◌∙◌, ◌∷◌, ◌≡◌, ◌≢◌,
}
use transact_go.Prelude.Int.{add_swap, pos, zero_plus, ℤ, ◌+ℤ◌, ◌≤ℤ◌}
use transact_go.Prelude.Rows.{
  All-find_row, All-update_row, IsKeyed, find_row-key, update_row-IsKeyed,
}
use transact_go.Wallets.Effects.{post}
use transact_go.Wallets.Entities.{LedgerEntry, Wallet}
use transact_go.Wallets.Service.{Bank, find_wallet, ledger_balance, signed_amount}

pub record IsSound (ledger : List LedgerEntry) (w : Wallet) : Type 0 where
  pub held : pos 0 ≤ℤ w.held_balance
  pub covered : w.held_balance ≤ℤ w.balance
  pub booked : w.balance ≡ ledger_balance w.id ledger

pub record IsValid (b : Bank) : Type 0 where
  pub keyed : IsKeyed Wallet.id b.wallets
  pub sound : All (IsSound b.ledger) b.wallets
  pub wallets_fresh : All (λ w. w.id < b.next_id) b.wallets
  pub ledger_fresh : All (λ e. e.wallet_id < b.next_id) b.ledger

pub IsValid-found :
    {b : Bank} (k : ℕ) (w : Wallet) → IsValid b → find_wallet k b ≡ some w → IsSound b.ledger w
IsValid-found {b} k w h e = All-find_row Wallet.id (IsSound b.ledger) k b.wallets w h.sound e

-- An entry of another wallet leaves the sum of this one's ledger.
IsSound-other :
    (e : LedgerEntry) (l : List LedgerEntry) (u : Wallet)
    → u.id ≢ e.wallet_id
    → IsSound l u
    → IsSound (e ∷ l) u
IsSound-other e l u ne s = record {
  held = s.held;
  covered = s.covered;
  booked = ground (arith, s.booked, zero_plus (ledger_balance u.id l));
}

IsSound-same :
    (e : LedgerEntry) (v : ℤ) (l : List LedgerEntry) (u : Wallet)
    → u.id ≡ e.wallet_id
    → u.held_balance ≤ℤ v
    → u.balance +ℤ signed_amount e.wallet_id e ≡ v
    → IsSound l u
    → IsSound (e ∷ l) (record u { balance = v })
IsSound-same e v l u same covers accounts s = record {
  held = s.held;
  covered = covers;
  booked =
      sym accounts
      ∙ add_swap u.balance (signed_amount e.wallet_id e)
      ∙ ap (λ x. signed_amount e.wallet_id e +ℤ x) s.booked
      ∙ ap (λ k. signed_amount e.wallet_id e +ℤ ledger_balance k l) same
      ∙ ap (λ k. ledger_balance k (e ∷ l)) (sym same);
}

module _ (e : LedgerEntry) (v : ℤ) (b : Bank) (w : Wallet) (h : IsValid b)
    (found : find_wallet e.wallet_id b ≡ some w) (covers : w.held_balance ≤ℤ v)
    (accounts : w.balance +ℤ signed_amount e.wallet_id e ≡ v) where
  same_row : (u : Wallet) → find_wallet e.wallet_id b ≡ some u → u ≡ w
  same_row u f = ground arith

  IsSound-posted : All (IsSound (e ∷ b.ledger)) (post e v b).wallets
  IsSound-posted =
      All-update_row Wallet.id (IsSound b.ledger) (IsSound (e ∷ b.ledger)) e.wallet_id
        (λ w. record w { balance = v }) b.wallets
        (λ u key f s.
          let same : u ≡ w = same_row u f in
          IsSound-same e v b.ledger u key (rw same covers) (rw same accounts) s)
        (λ u ne s. IsSound-other e b.ledger u ne s) h.keyed h.sound

  fresh_posted : All (λ w. w.id < b.next_id + 1) (post e v b).wallets
  fresh_posted =
      All-update_row Wallet.id (λ w. w.id < b.next_id) (λ w. w.id < b.next_id + 1) e.wallet_id
        (λ w. record w { balance = v }) b.wallets (λ u _ _ lt. omega arith) (λ u _ lt. omega arith)
        h.keyed h.wallets_fresh

  wallet_fresh : e.wallet_id < b.next_id
  wallet_fresh =
      let key : w.id ≡ e.wallet_id = find_row-key Wallet.id e.wallet_id b.wallets w found in
      let lt : w.id < b.next_id =
        All-find_row Wallet.id (λ u. u.id < b.next_id) e.wallet_id b.wallets w h.wallets_fresh
          found in
      rw key at lt

  pub post-IsValid : IsValid (post e v b)
  post-IsValid = record {
    keyed =
        update_row-IsKeyed Wallet.id e.wallet_id (λ w. record w { balance = v }) b.wallets
          (λ _. refl) h.keyed;
    sound = IsSound-posted;
    wallets_fresh = fresh_posted;
    ledger_fresh = (
      omega (arith, wallet_fresh),
      All-map (λ (x : LedgerEntry). x.wallet_id < b.next_id) (λ x. x.wallet_id < b.next_id + 1)
          b.ledger (λ x lt. omega arith) h.ledger_fresh,
    );
  }
