-- ===== src/Admin/Accounts.antt =====
-- Accounts and wallets that an administrator blocks by src/modules/admin/admin.module.ts, and what the
-- services of other modules do with them then.
use mathlib.Core.Path.{subst}
use transact_go.Admin.Dto.{FreezeWalletDto, SuspendUserDto}
use transact_go.Admin.Service.{AdminDb, activate_user, freeze_wallet, suspend_user}
use transact_go.Auth.Guards.{validate, validate_found}
use transact_go.Auth.Interfaces.{Bcrypt, Jwt}
use transact_go.Auth.Lockout.{find_by_email-update}
use transact_go.Auth.Registration.{login_admitted}
use transact_go.Auth.Service.{
  AuthDb, AuthResponse, LoginDto, admit, check_password, find_by_email, is_suspended, login,
  payload_of, stored_hash, update_user,
}
use transact_go.Auth.Sessions.{response}
use transact_go.Cache.{Cache}
use transact_go.Fees.Entities.{FeeRule}
use transact_go.Fees.Rules.{RuleKey}
use transact_go.Outcome.{
  account_locked, account_suspended, err, forbidden, invalid_credentials, ok, unauthorized,
}
use transact_go.Prelude.{Bool, Bool-cases, ap, inl, inr, none, refl, some, true, ℕ, ◌≡◌, ◌≢◌}
use transact_go.Prelude.Int.{pos, ◌<ℤ◌}
use transact_go.Prelude.Rows.{find_row, find_row-update_self, update_row}
use transact_go.Users.Entities.{User, UserStatus, is_locked}
use transact_go.Wallets.Entities.{LedgerEntry, Wallet, frozen}
use transact_go.Wallets.Movement.{credit_iff, debit_iff}
use transact_go.Wallets.Service.{Bank, CreditParams, DebitParams, credit, debit, find_wallet}

module _ (bcrypt : Bcrypt) (jwt : Jwt) (F : Cache RuleKey FeeRule) (R C : Type 0)
    (write_fails : Bool) where
  -- A login for an account that is suspended never returns.
  login_suspended :
      (salt : ℕ) (dto : LoginDto) (u : User) (db : AuthDb) (r : AuthResponse)
      → find_by_email dto.email db ≡ some u
      → is_suspended u.status ≡ true
      → (login bcrypt jwt salt dto db).0 ≢ ok r
  unfolding login check_password admit
  login_suspended salt dto u db r found gone e = elim (Bool-cases (is_locked db.now u)) [
    | inl locked ↦
        let refused : (login bcrypt jwt salt dto db).0 ≡ err (unauthorized account_locked) =
          rw (found, locked) refl in
        cc (e, refused)
    | inr free ↦ elim (Bool-cases (bcrypt.compare dto.password (stored_hash (some u)))) [
      | inl right ↦
          let refused : (login bcrypt jwt salt dto db).0 ≡ err (forbidden account_suspended) =
            rw (found, free, right, gone) refl in
          cc (e, refused)
      | inr wrong ↦
          let refused : (login bcrypt jwt salt dto db).0 ≡ err (unauthorized invalid_credentials) =
            rw (found, free, wrong) refl in
          cc (e, refused)
    ]
  ]

  -- After a suspension, no login by the email of the account returns, whatever its password, and a
  -- token of the account that is still valid is refused.
  pub suspend_user-login :
      (actor : ℕ) (body : SuspendUserDto) (dto : LoginDto) (u : User) (db : AdminDb F R C)
      → find_by_email dto.email db.auth ≡ some u
      → find_row User.id u.id db.auth.users ≡ some u
      → let after = (suspend_user F R C write_fails u.id actor body db).auth in
        ((salt : ℕ) (r : AuthResponse) → (login bcrypt jwt salt dto after).0 ≢ ok r)
        × (validate (payload_of u) after ≡ err (unauthorized account_suspended))
  unfolding suspend_user validate
  suspend_user-login actor body dto u db found row =
      let f : User → User = λ x. record x { status = UserStatus.suspended } in
      let after : AuthDb = (update_user u.id f db.auth).1 in
      let found' : find_by_email dto.email after ≡ some (f u) =
        find_by_email-update dto.email f db.auth.users u (λ x. refl) found in
      let row' : find_row User.id u.id after.users ≡ some (f u) =
        find_row-update_self User.id u.id f db.auth.users u (λ x. refl) row in
      (λ salt r. login_suspended salt dto (f u) after r found' refl, ap validate_found row')

  -- After an activation, the right password logs in again: a suspension and a lock are both over.
  pub activate_user-login :
      (actor salt : ℕ) (dto : LoginDto) (u : User) (db : AdminDb F R C)
      → find_by_email dto.email db.auth ≡ some u
      → bcrypt.compare dto.password (stored_hash (some u)) ≡ true
      → let after = (activate_user F R C write_fails u.id actor db).auth in
        (login bcrypt jwt salt dto after).0
        ≡ ok (response jwt (record u { status = UserStatus.active }) after.now)
  unfolding activate_user is_locked
  activate_user-login actor salt dto u db found right =
      let f : User → User = λ x. record x {
        status = UserStatus.active;
        failed_login_attempts = 0;
        locked_until = none;
      } in
      let after : AuthDb = (update_user u.id f db.auth).1 in
      login_admitted bcrypt jwt salt dto (f u) after
        (find_by_email-update dto.email f db.auth.users u (λ x. refl) found) refl right refl

module _ (F : Cache RuleKey FeeRule) (R C : Type 0) (write_fails : Bool) where
  -- After a freeze of a wallet that exists, no debit of it returns, while a credit of a positive
  -- amount is posted as before.
  pub freeze_wallet-debit :
      (actor : ℕ) (body : FreezeWalletDto) (w : Wallet) (p : DebitParams) (q : CreditParams)
      (db : AdminDb F R C)
      → find_wallet w.id db.bank ≡ some w
      → p.wallet_id ≡ w.id
      → q.wallet_id ≡ w.id
      → pos 0 <ℤ q.amount
      → let after = (freeze_wallet F R C write_fails w.id actor body db).bank in
        ((e : LedgerEntry) (b' : Bank) → debit p after ≢ (ok e, b'))
        × ((e : LedgerEntry) × (b' : Bank) × (credit q after ≡ (ok e, b')))
  unfolding freeze_wallet
  freeze_wallet-debit actor body w p q db found same same' positive =
      let f : Wallet → Wallet = λ x. record x { status = frozen } in
      let after : Bank = record db.bank { wallets = update_row Wallet.id w.id f db.bank.wallets } in
      let found' : find_wallet w.id after ≡ some (f w) =
        find_row-update_self Wallet.id w.id f db.bank.wallets w (λ x. refl) found in
      (
        λ e b' done.
            let (v, can) = (debit_iff p after).0 (e, b', done) in
            let at_w : find_wallet w.id after ≡ some v =
              subst (λ k. find_wallet k after ≡ some v) same can.found in
            let frozen_one : v ≡ f w = cc (at_w, found') in
            cc (ap Wallet.status frozen_one, can.live),
        (credit_iff q after).1
            (f w, record { found = rw same' found'; positive = positive; open_wallet = λ e. cc e }),
      )
