-- ===== src/Reports/History.antt =====
-- The ledger as a history: each entry holds the balance that it left, and no entry is later than one
-- above it. What src/modules/wallets/wallets.service.ts writes keeps it so, while time passes.
use transact_go.Prelude.{
  All, All-map, Bool-cases, List, [], arith, find, inl, inr, is_some, refl, true, ℕ, ◌+◌, ◌==◌, ◌∷◌,
  ◌≡◌, ◌≤◌,
}
use transact_go.Prelude.Int.{int_laws, ℤ, ◌+ℤ◌, ◌-ℤ◌}
use transact_go.Prelude.Rows.{find_row-key}
use transact_go.Wallets.Effects.{
  credit-inv, credit-posts, credit_entry_of, debit-inv, debit-posts, debit_entry_of, post,
}
use transact_go.Wallets.Entities.{Currency, LedgerEntry, Wallet}
use transact_go.Wallets.Invariant.{IsSound, IsValid, IsValid-found}
use transact_go.Wallets.Preserved.{
  Operation, create_op, create_wallet-IsValid, credit-IsValid, credit_op, debit-IsValid, debit_op,
  empty_bank, perform,
}
use transact_go.Wallets.Service.{
  Bank, CreditParams, DebitParams, create_wallet, credit, debit, ledger_balance, owns_currency,
  signed_amount,
}

abbrev pub IsRunning : List LedgerEntry → Type 0
IsRunning [] = Unit
IsRunning (e ∷ l) = (e.balance_after ≡ ledger_balance e.wallet_id (e ∷ l)) × IsRunning l

abbrev pub IsTimed : List LedgerEntry → Type 0
IsTimed [] = Unit
IsTimed (e ∷ l) = All (λ x. x.created_at ≤ e.created_at) l × IsTimed l

pub record IsHistory (b : Bank) : Type 0 where
  pub valid : IsValid b
  pub running : IsRunning b.ledger
  pub timed : IsTimed b.ledger
  pub past : All (λ e. e.created_at ≤ b.now) b.ledger

-- What happens to a bank: an operation of the service, or time passes.
pub data Moment : Type 0 where
  act_now : Operation → Moment
  wait : ℕ → Moment

unfoldable pub live : Moment → Bank → Bank
unfolding perform
live (act_now o) b = perform o b
live (wait n) b = record b { now = b.now + n }

unfoldable pub live_all : List Moment → Bank → Bank
live_all [] b = b
live_all (m ∷ ms) b = live_all ms (live m b)

-- An entry whose balance follows from the ledger is one more of the history.
post-IsHistory :
    (e : LedgerEntry) (v : ℤ) (b : Bank)
    → IsHistory b
    → IsValid (post e v b)
    → e.created_at ≡ b.now
    → e.balance_after ≡ signed_amount e.wallet_id e +ℤ ledger_balance e.wallet_id b.ledger
    → IsHistory (post e v b)
post-IsHistory e v b h valid now after = record {
  valid = valid;
  running = (after, h.running);
  timed = (rw now h.past, h.timed);
  past = (rw now (omega arith), h.past);
}

debit-IsHistory : (p : DebitParams) (b : Bank) → IsHistory b → IsHistory (debit p b).1
debit-IsHistory p b h = elim (debit-inv p b) [
  | inl (x, refused) ↦ rw refused h
  | inr (w, c) ↦
      let key : w.id ≡ p.wallet_id = find_row-key Wallet.id p.wallet_id b.wallets w c.found in
      let s : IsSound b.ledger w = IsValid-found p.wallet_id w h.valid c.found in
      let booked : w.balance ≡ ledger_balance p.wallet_id b.ledger = rw key at s.booked in
      let self : (p.wallet_id == p.wallet_id) ≡ true = ground arith in
      let valid : IsValid (debit p b).1 = debit-IsValid p b h.valid in
      rw (debit-posts p b w c) (
        post-IsHistory (debit_entry_of p w b) (w.balance -ℤ p.amount) b h
          (rw (debit-posts p b w c) at valid) refl (rw (self, booked) (omega int_laws)))
]

credit-IsHistory : (p : CreditParams) (b : Bank) → IsHistory b → IsHistory (credit p b).1
credit-IsHistory p b h = elim (credit-inv p b) [
  | inl (x, refused) ↦ rw refused h
  | inr (w, c) ↦
      let key : w.id ≡ p.wallet_id = find_row-key Wallet.id p.wallet_id b.wallets w c.found in
      let s : IsSound b.ledger w = IsValid-found p.wallet_id w h.valid c.found in
      let booked : w.balance ≡ ledger_balance p.wallet_id b.ledger = rw key at s.booked in
      let self : (p.wallet_id == p.wallet_id) ≡ true = ground arith in
      let valid : IsValid (credit p b).1 = credit-IsValid p b h.valid in
      rw (credit-posts p b w c) (
        post-IsHistory (credit_entry_of p w b) (w.balance +ℤ p.amount) b h
          (rw (credit-posts p b w c) at valid) refl (rw (self, booked) (omega int_laws)))
]

create_wallet-IsHistory :
    (user : ℕ) (c : Currency) (b : Bank) → IsHistory b → IsHistory (create_wallet user c b).1
unfolding create_wallet
create_wallet-IsHistory user c b h =
    let valid : IsValid (create_wallet user c b).1 = create_wallet-IsValid user c b h.valid in
    elim (Bool-cases (is_some (find (owns_currency user c) b.wallets))) [
      | inl taken ↦ rw taken h
      | inr free ↦
          rw free (record {
            valid = rw free at valid;
            running = h.running;
            timed = h.timed;
            past = h.past;
          })
    ]

wait-IsHistory : (n : ℕ) (b : Bank) → IsHistory b → IsHistory (record b { now = b.now + n })
wait-IsHistory n b h = record {
  valid = record {
    keyed = h.valid.keyed;
    sound = h.valid.sound;
    wallets_fresh = h.valid.wallets_fresh;
    ledger_fresh = h.valid.ledger_fresh;
  };
  running = h.running;
  timed = h.timed;
  past =
      All-map (λ (e : LedgerEntry). e.created_at ≤ b.now) (λ e. e.created_at ≤ b.now + n) b.ledger
        (λ e le. omega arith) h.past;
}

live-IsHistory : (m : Moment) (b : Bank) → IsHistory b → IsHistory (live m b)
unfolding live perform
live-IsHistory (act_now (create_op user c)) b h = create_wallet-IsHistory user c b h
live-IsHistory (act_now (debit_op p)) b h = debit-IsHistory p b h
live-IsHistory (act_now (credit_op p)) b h = credit-IsHistory p b h
live-IsHistory (wait n) b h = wait-IsHistory n b h

pub live_all-IsHistory : (ms : List Moment) (b : Bank) → IsHistory b → IsHistory (live_all ms b)
unfolding live_all
live_all-IsHistory [] b h = h
live_all-IsHistory (m ∷ ms) b h = live_all-IsHistory ms (live m b) (live-IsHistory m b h)

pub empty_bank-IsHistory : IsHistory empty_bank
empty_bank-IsHistory = record {
  valid = record { keyed = tt; sound = tt; wallets_fresh = tt; ledger_fresh = tt };
  running = tt;
  timed = tt;
  past = tt;
}
