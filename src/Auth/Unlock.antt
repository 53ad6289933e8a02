-- ===== src/Auth/Unlock.antt =====
-- The end of a lock of src/modules/auth/auth.service.ts.
use transact_go.Auth.Interfaces.{Bcrypt, Jwt}
use transact_go.Auth.Lockout.{AreWrong, IsShut, attempt_all, attempts_lock, dto_of}
use transact_go.Auth.Registration.{login_admitted}
use transact_go.Auth.Service.{
  AuthDb, AuthResponse, find_by_email, is_suspended, lock_duration, login, max_failed_attempts,
  stored_hash,
}
use transact_go.Auth.Sessions.{clock_at, response}
use transact_go.Outcome.{ok}
use transact_go.Prelude.{
  List, String, ap, arith, false, length, refl, some, true, ℕ, ◌+◌, ◌∙◌, ◌∷◌, ◌≡◌, ◌≤◌,
}
use transact_go.Reports.History.{live}
use transact_go.Users.Entities.{User, is_locked}

module _ (bcrypt : Bcrypt) (jwt : Jwt) (email : String) where
  unlocked_after :
      (until now : ℕ) (u : User)
      → u.locked_until ≡ some until
      → until ≤ now
      → is_locked now u ≡ false
  unfolding is_locked
  unlocked_after until now u e over = rw e (ground arith)

  stored_hash_same :
      (u v : User) → u.password_hash ≡ v.password_hash → stored_hash (some u) ≡ stored_hash (some v)
  stored_hash_same u v e = rw e refl

  -- A lock ends: after one or more wrong passwords that lock an account, as many as it takes, a login
  -- with the right password returns a session from thirty minutes on, if the account is not suspended.
  pub login-attempt_all_over :
      (r : ℕ × String) (rs : List (ℕ × String)) (u : User) (db : AuthDb)
      → find_by_email email db ≡ some u
      → is_locked db.now u ≡ false
      → AreWrong bcrypt jwt email u (r ∷ rs)
      → max_failed_attempts ≤ length (r ∷ rs) + u.failed_login_attempts
      → (later salt : ℕ) (password : String) → db.now + lock_duration ≤ later
      → bcrypt.compare password (stored_hash (some u)) ≡ true
      → is_suspended u.status ≡ false
      → (session : AuthResponse) × ((login bcrypt jwt salt
            (dto_of bcrypt jwt email password)
            (clock_at later (attempt_all bcrypt jwt email (r ∷ rs) db))).0
          ≡ ok session)
  login-attempt_all_over r rs u db found free wrong many later salt password over right live =
      let shut : IsShut bcrypt jwt email db.now u (attempt_all bcrypt jwt email (r ∷ rs) db) =
        attempts_lock bcrypt jwt email r rs u db found free wrong many in
      (
        response jwt shut.row later,
        login_admitted bcrypt jwt salt (dto_of bcrypt jwt email password) shut.row
            (clock_at later (attempt_all bcrypt jwt email (r ∷ rs) db)) shut.row_found
            (unlocked_after (db.now + lock_duration) later shut.row shut.until over)
            (ap (bcrypt.compare password) (stored_hash_same shut.row u shut.same_hash) ∙ right)
            (ap is_suspended shut.same_status ∙ live),
      )
