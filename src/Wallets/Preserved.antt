-- ===== src/Wallets/Preserved.antt =====
-- The invariant of Wallets/Invariant under the operations of
-- src/modules/wallets/wallets.service.ts, and under sequences of them.
use transact_go.Outcome.{ok}
use transact_go.Prelude.{
  All, All-map, Bool-cases, List, [], arith, false, find, inl, inr, is_some, none, refl, some, sym,
  true, ℕ, ◌+◌, ◌<◌, ◌==◌, ◌∷◌, ◌≡◌,
}
use transact_go.Prelude.Int.{eqb_ℤ, int_laws, pos, ◌+ℤ◌, ◌-ℤ◌, ◌≤ℤ◌}
use transact_go.Prelude.Rows.{find_row, find_row-key}
use transact_go.Wallets.Effects.{
  credit-inv, credit-posts, credit_entry_of, debit-inv, debit-posts, debit_entry_of,
}
use transact_go.Wallets.Entities.{Currency, LedgerEntry, Wallet}
use transact_go.Wallets.Invariant.{IsSound, IsValid, IsValid-found, post-IsValid}
use transact_go.Wallets.Service.{
  Bank, CreditParams, DebitParams, create_wallet, credit, debit, find_wallet, ledger_balance,
  owns_currency, reconcile_balance, signed_amount,
}

-- A balance less a debit, and a balance plus a credit, are accounted for by the entry.
debit_accounts :
    (p : DebitParams) (w : Wallet) (b : Bank)
    → w.balance +ℤ signed_amount p.wallet_id (debit_entry_of p w b) ≡ w.balance -ℤ p.amount
debit_accounts p w b =
    let self : (p.wallet_id == p.wallet_id) ≡ true = ground arith in rw self (omega int_laws)

credit_accounts :
    (p : CreditParams) (w : Wallet) (b : Bank)
    → w.balance +ℤ signed_amount p.wallet_id (credit_entry_of p w b) ≡ w.balance +ℤ p.amount
credit_accounts p w b =
    let self : (p.wallet_id == p.wallet_id) ≡ true = ground arith in rw self refl

-- A debit, made or refused, keeps the bank valid.
pub debit-IsValid : (p : DebitParams) (b : Bank) → IsValid b → IsValid (debit p b).1
debit-IsValid p b h = elim (debit-inv p b) [
  | inl (x, refused) ↦ rw refused h
  | inr (w, c) ↦ rw (debit-posts p b w c) (
      post-IsValid (debit_entry_of p w b) (w.balance -ℤ p.amount) b w h c.found
        (omega (int_laws, c.funded)) (debit_accounts p w b))
]

-- A credit, made or refused, keeps the bank valid.
pub credit-IsValid : (p : CreditParams) (b : Bank) → IsValid b → IsValid (credit p b).1
credit-IsValid p b h = elim (credit-inv p b) [
  | inl (x, refused) ↦ rw refused h
  | inr (w, c) ↦
      let s : IsSound b.ledger w = IsValid-found p.wallet_id w h c.found in
      rw (credit-posts p b w c) (
        post-IsValid (credit_entry_of p w b) (w.balance +ℤ p.amount) b w h c.found
          (omega (int_laws, c.positive, s.covered)) (credit_accounts p w b))
]

-- No row and no entry has a key that was never given out.
find_row-fresh : (n : ℕ) (t : List Wallet) → All (λ w. w.id < n) t → find_row Wallet.id n t ≡ none
find_row-fresh n [] h = refl
find_row-fresh n (w ∷ t) h = ground (arith, find_row-fresh n t h.1)

ledger_balance-fresh :
    (n : ℕ) (l : List LedgerEntry) → All (λ e. e.wallet_id < n) l → ledger_balance n l ≡ pos 0
ledger_balance-fresh n [] h = refl
ledger_balance-fresh n (e ∷ l) h =
    let other : (e.wallet_id == n) ≡ false = ground arith in
    rw (other, ledger_balance-fresh n l h.1) (omega int_laws)

-- Opening a wallet, or refusing to, keeps a valid bank valid.
pub create_wallet-IsValid :
    (user : ℕ) (c : Currency) (b : Bank) → IsValid b → IsValid (create_wallet user c b).1
unfolding create_wallet
create_wallet-IsValid user c b h =
    elim (Bool-cases (is_some (find (owns_currency user c) b.wallets))) [
      | inl taken ↦ rw taken h
      | inr free ↦ rw free (record {
        keyed = (find_row-fresh b.next_id b.wallets h.wallets_fresh, h.keyed);
        sound = (
          record {
            held = omega arith;
            covered = omega arith;
            booked = sym (ledger_balance-fresh b.next_id b.ledger h.ledger_fresh);
          },
          h.sound,
        );
        wallets_fresh = (
          omega arith,
          All-map (λ (w : Wallet). w.id < b.next_id) (λ w. w.id < b.next_id + 1) b.wallets
              (λ w lt. omega arith) h.wallets_fresh,
        );
        ledger_fresh =
            All-map (λ (e : LedgerEntry). e.wallet_id < b.next_id)
              (λ e. e.wallet_id < b.next_id + 1) b.ledger (λ e lt. omega arith) h.ledger_fresh;
      })
    ]

-- In a valid bank the reconciliation of every wallet reports agreement.
pub reconcile_balance-IsValid :
    (k : ℕ) (w : Wallet) (b : Bank)
    → IsValid b
    → find_wallet k b ≡ some w
    → reconcile_balance k b ≡ (
      ok (record {
        wallet_balance = w.balance;
        calculated_balance = w.balance;
        is_consistent = true;
      }),
      b,
    )
unfolding reconcile_balance
reconcile_balance-IsValid k w b h found =
    let key : w.id ≡ k = find_row-key Wallet.id k b.wallets w found in
    let s : IsSound b.ledger w = IsValid-found k w h found in
    let booked : ledger_balance k b.ledger ≡ w.balance = rw key at (sym s.booked) in
    let agree : eqb_ℤ w.balance w.balance ≡ true = ground arith in rw (found, booked, agree) refl

-- The operations that change the bank, and a run of them: each may throw, and the next one goes on
-- from the state that it left.
pub data Operation : Type 0 where
  create_op : ℕ → Currency → Operation
  debit_op : DebitParams → Operation
  credit_op : CreditParams → Operation

unfoldable pub perform : Operation → Bank → Bank
perform (create_op user c) b = (create_wallet user c b).1
perform (debit_op p) b = (debit p b).1
perform (credit_op p) b = (credit p b).1

unfoldable pub run : List Operation → Bank → Bank
run [] b = b
run (o ∷ os) b = run os (perform o b)

perform-IsValid : (o : Operation) (b : Bank) → IsValid b → IsValid (perform o b)
unfolding perform
perform-IsValid (create_op user c) b h = create_wallet-IsValid user c b h
perform-IsValid (debit_op p) b h = debit-IsValid p b h
perform-IsValid (credit_op p) b h = credit-IsValid p b h

run-IsValid : (os : List Operation) (b : Bank) → IsValid b → IsValid (run os b)
unfolding run
run-IsValid [] b h = h
run-IsValid (o ∷ os) b h = run-IsValid os (perform o b) (perform-IsValid o b h)

-- The bank before its first operation.
abbrev pub empty_bank : Bank
empty_bank = record { wallets = []; ledger = []; next_id = 0; now = 0 }

-- After any sequence of wallet openings, debits and credits from the empty bank, whether they
-- succeed or throw, reconciling any wallet that exists reports a ledger sum equal to its balance.
pub reconcile_balance-run :
    (os : List Operation) (k : ℕ) (w : Wallet)
    → find_wallet k (run os empty_bank) ≡ some w
    → reconcile_balance k (run os empty_bank) ≡ (
      ok (record {
        wallet_balance = w.balance;
        calculated_balance = w.balance;
        is_consistent = true;
      }),
      run os empty_bank,
    )
reconcile_balance-run os k w found =
    reconcile_balance-IsValid k w (run os empty_bank)
      (run-IsValid os empty_bank
        (record { keyed = tt; sound = tt; wallets_fresh = tt; ledger_fresh = tt }))
      found

-- After any sequence of wallet openings, debits and credits from the empty bank, no balance is below
-- what is held on the wallet, and none is negative.
pub run_covers :
    (os : List Operation) (k : ℕ) (w : Wallet)
    → find_wallet k (run os empty_bank) ≡ some w
    → (pos 0 ≤ℤ w.balance) × (w.held_balance ≤ℤ w.balance)
run_covers os k w found =
    let s : IsSound (run os empty_bank).ledger w =
      IsValid-found k w
        (run-IsValid os empty_bank
          (record { keyed = tt; sound = tt; wallets_fresh = tt; ledger_fresh = tt }))
        found in
    (omega (arith, s.held, s.covered), s.covered)
