-- ===== src/Auth/Registration.antt =====
-- An account of src/modules/auth/auth.service.ts from its registration to a login with its password,
-- and an account that an administrator has suspended.
use text.Mathlib.TextPositions.{eq_refl}
use transact_go.Auth.Interfaces.{Bcrypt, Jwt}
use transact_go.Auth.Service.{
  AuthDb, LoginDto, RegisterDto, admit, check_password, find_by_email, generate_token_response,
  is_suspended, login, new_user, register, stored_hash,
}
use transact_go.Auth.Sessions.{clock_at, refresh_token_of, response}
use transact_go.Outcome.{ok}
use transact_go.Prelude.{arith, false, none, refl, some, true, ℕ, ◌==◌, ◌≡◌}
use transact_go.Reports.History.{live}
use transact_go.Users.Entities.{User, is_locked}

module _ (bcrypt : Bcrypt) (jwt : Jwt) where
  abbrev pub registered : ℕ → RegisterDto → AuthDb → User
  registered salt dto db = new_user dto (bcrypt.hash salt dto.password) db.next_id db.now

  -- The row that `register` leaves, with the token that it issues.
  abbrev signed_up : ℕ → ℕ → RegisterDto → AuthDb → User
  signed_up password_salt salt dto db = record (registered password_salt dto db) {
    refresh_token_hash =
        some (bcrypt.hash salt (refresh_token_of jwt (registered password_salt dto db) db.now));
  }

  register-find :
      (password_salt salt : ℕ) (dto : RegisterDto) (db : AuthDb)
      → find_by_email dto.email db ≡ none
      → ((register bcrypt jwt password_salt salt dto db).0
          ≡ ok (response jwt (registered password_salt dto db) db.now))
        × (find_by_email dto.email (register bcrypt jwt password_salt salt dto db).1
            ≡ some (signed_up password_salt salt dto db))
  unfolding register generate_token_response
  register-find password_salt salt dto db free =
      let same : (db.next_id == db.next_id) ≡ true = ground arith in
      rw (free) (refl, (simp (same, eq_refl dto.email)))

  pub login_admitted :
      (salt : ℕ) (dto : LoginDto) (u : User) (db : AuthDb)
      → find_by_email dto.email db ≡ some u
      → is_locked db.now u ≡ false
      → bcrypt.compare dto.password (stored_hash (some u)) ≡ true
      → is_suspended u.status ≡ false
      → (login bcrypt jwt salt dto db).0 ≡ ok (response jwt u db.now)
  unfolding login check_password admit generate_token_response
  login_admitted salt dto u db found free right live = rw (found, free, right, live) refl

  -- A registration with an email that no account has returns a session for the new account, and a
  -- login with the same email and password, at any later time, returns one for the same account.
  pub login-register :
      (password_salt salt salt' later : ℕ) (dto : RegisterDto) (db : AuthDb)
      → find_by_email dto.email db ≡ none
      → ((register bcrypt jwt password_salt salt dto db).0
          ≡ ok (response jwt (registered password_salt dto db) db.now))
        × ((login bcrypt jwt salt'
              (record { email = dto.email; password = dto.password })
              (clock_at later (register bcrypt jwt password_salt salt dto db).1)).0
            ≡ ok (response jwt (registered password_salt dto db) later))
  unfolding is_locked
  login-register password_salt salt salt' later dto db free =
      let (session, found) = register-find password_salt salt dto db free in
      let row : User = signed_up password_salt salt dto db in
      let hashed : stored_hash (some row) ≡ bcrypt.hash password_salt dto.password =
        rw (bcrypt.hash_nonempty password_salt dto.password) refl in
      (
        session,
        login_admitted salt' (record { email = dto.email; password = dto.password }) row
            (clock_at later (register bcrypt jwt password_salt salt dto db).1) found refl
            (rw hashed (bcrypt.compare-hash dto.password dto.password password_salt refl)) refl,
      )
