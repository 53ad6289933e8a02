-- ===== src/Auth/Service.antt =====
-- src/modules/auth/auth.service.ts. `AuthDb` is the table of users and the clock, in milliseconds.
-- Half an hour later is taken on the clock, where the source sets the minutes of the local time.
use transact_go.Auth.Interfaces.{Bcrypt, Jwt, JwtPayload}
use transact_go.Outcome.{
  Exec, account_locked, account_suspended, conflict, email_taken, err, forbidden, gets,
  invalid_credentials, login_again, ok, throw_if, token_reuse, unauthorized, ◌>>=◌, ◌>>◌,
}
use transact_go.Prelude.{
  Bool, List, Option, String, false, find, if◌then◌else◌, is_some, leb, ltb, none, not, some,
  str_eq, true, ℕ, ◌+◌, ◌∷◌,
}
use transact_go.Prelude.Rows.{find_row, update_row}
use transact_go.Users.Entities.{KycTier, User, UserStatus, is_locked, suspended, unverified}

pub record AuthDb : Type 0 where
  pub users : List User
  pub next_id : ℕ
  pub now : ℕ

pub record RegisterDto : Type 0 where
  pub email : String
  pub first_name : String
  pub last_name : String
  pub password : String

pub record LoginDto : Type 0 where
  pub email : String
  pub password : String

pub record AuthUser : Type 0 where
  pub id : ℕ
  pub email : String
  pub first_name : String
  pub last_name : String
  pub kyc_tier : KycTier
  pub status : UserStatus

pub record AuthResponse : Type 0 where
  pub access_token : String
  pub refresh_token : String
  pub expires_in : ℕ
  pub user : AuthUser

abbrev pub max_failed_attempts : ℕ
max_failed_attempts = 5

-- LOCK_DURATION_MINUTES, in milliseconds.
abbrev pub lock_duration : ℕ
lock_duration = 1_800_000

abbrev pub dummy_hash : String
dummy_hash = "$2b$12$dummy.hash.to.prevent.timing.attacks.and.user.enum"

abbrev pub find_by_email : String → AuthDb → Option User
find_by_email email db = find (λ u. str_eq u.email email) db.users

-- `userRepo.update(id, …)`
abbrev pub update_user : ℕ → (User → User) → Exec AuthDb (Unit {0})
update_user k f db = (ok tt, record db { users = update_row User.id k f db.users })

abbrev pub auth_user_of : User → AuthUser
auth_user_of u = record {
  id = u.id;
  email = u.email;
  first_name = u.first_name;
  last_name = u.last_name;
  kyc_tier = u.kyc_tier;
  status = u.status;
}

-- `recordFailedAttempt`, on the row.
abbrev pub failed_attempt : ℕ → ℕ → User → User
failed_attempt attempts now u = record u {
  failed_login_attempts = attempts;
  locked_until =
      if leb max_failed_attempts attempts then some (now + lock_duration) else u.locked_until;
}

unfoldable pub record_failed_attempt : User → Exec AuthDb (Unit {0})
record_failed_attempt user db =
    update_user user.id (failed_attempt (user.failed_login_attempts + 1) db.now) db

-- The update after a password that is right.
abbrev pub clear_attempts : ℕ → ℕ → User → User
clear_attempts failures now u =
    if ltb 0 failures
    then (record u { failed_login_attempts = 0; locked_until = none; last_login_at = some now })
    else (record u { last_login_at = some now })

abbrev pub is_suspended : UserStatus → Bool
is_suspended suspended = true
is_suspended _ = false

-- `user?.passwordHash || dummyHash`
abbrev pub stored_hash : Option User → String
stored_hash none = dummy_hash
stored_hash (some u) = if str_eq u.password_hash "" then dummy_hash else u.password_hash

abbrev pub new_user : RegisterDto → String → ℕ → ℕ → User
new_user dto password_hash id now = record {
  id = id;
  email = dto.email;
  first_name = dto.first_name;
  last_name = dto.last_name;
  password_hash = password_hash;
  status = UserStatus.active;
  kyc_tier = unverified;
  refresh_token_hash = none;
  phone = none;
  failed_login_attempts = 0;
  locked_until = none;
  last_login_at = none;
  created_at = now;
}

abbrev pub save_user : (ℕ → ℕ → User) → Exec AuthDb User
save_user make db =
    let row : User = make db.next_id db.now in
    (ok row, record db { users = row ∷ db.users; next_id = db.next_id + 1 })

abbrev pub has_text : Option String → Bool
has_text none = false
has_text (some s) = not (str_eq s "")

abbrev pub payload_of : User → JwtPayload
payload_of u = record { sub = u.id; email = u.email; kyc_tier = u.kyc_tier }

abbrev pub is_locked_out : ℕ → Option User → Bool
is_locked_out now none = false
is_locked_out now (some user) = is_locked now user

abbrev pub or_empty : Option String → String
or_empty none = ""
or_empty (some s) = s

module _ (bcrypt : Bcrypt) (jwt : Jwt) where
  -- `salt` is what bcrypt draws for the hash of the token.
  unfoldable pub generate_token_response : ℕ → User → Exec AuthDb AuthResponse
  generate_token_response salt user db =
      let token = jwt.sign_refresh (payload_of user) db.now in
      (
        ok (record {
          access_token = jwt.sign_access (payload_of user) db.now;
          refresh_token = token;
          expires_in = 900;
          user = auth_user_of user;
        }),
        record db {
          users =
              update_row User.id user.id
                (λ u. record u { refresh_token_hash = some (bcrypt.hash salt token) }) db.users;
        },
      )

  unfoldable pub register : ℕ → ℕ → RegisterDto → Exec AuthDb AuthResponse
  unfolding generate_token_response
  register password_salt salt dto = do
    existing ← gets (find_by_email dto.email)
    throw_if (is_some existing) (conflict email_taken)
    saved ← save_user (new_user dto (bcrypt.hash password_salt dto.password))
    generate_token_response salt saved

  -- The rest of `login`, for a user that was found and a password that is right.
  unfoldable pub admit : ℕ → User → Exec AuthDb AuthResponse
  unfolding generate_token_response
  admit salt user = do
    now ← gets AuthDb.now
    update_user user.id (clear_attempts user.failed_login_attempts now)
    throw_if (is_suspended user.status) (forbidden account_suspended)
    generate_token_response salt user

  -- `if (!user || !passwordValid)`
  unfoldable pub check_password : ℕ → Bool → Option User → Exec AuthDb AuthResponse
  unfolding record_failed_attempt admit
  check_password salt valid none db = (err (unauthorized invalid_credentials), db)
  check_password salt false (some user) db =
      (err (unauthorized invalid_credentials), (record_failed_attempt user db).1)
  check_password salt true (some user) db = admit salt user db

  unfoldable pub login : ℕ → LoginDto → Exec AuthDb AuthResponse
  unfolding check_password
  login salt dto db =
      let found = find_by_email dto.email db in
      if is_locked_out db.now found
      then (err (unauthorized account_locked), db)
      else check_password salt (bcrypt.compare dto.password (stored_hash found)) found db

  -- For a user whose hash is there.
  unfoldable pub rotate : ℕ → ℕ → Bool → User → Exec AuthDb AuthResponse
  unfolding generate_token_response
  rotate salt user_id true user db = generate_token_response salt user db
  rotate salt user_id false user db = (
    err (forbidden token_reuse),
    (update_user user_id (λ u. record u { refresh_token_hash = none }) db).1,
  )

  abbrev pub refresh_found : ℕ → ℕ → String → Option User → Exec AuthDb AuthResponse
  refresh_found salt user_id raw none db = (err (forbidden login_again), db)
  refresh_found salt user_id raw (some user) db =
      if has_text user.refresh_token_hash
      then rotate salt user_id (bcrypt.compare raw (or_empty user.refresh_token_hash)) user db
      else (err (forbidden login_again), db)

  unfoldable pub refresh_tokens : ℕ → ℕ → String → Exec AuthDb AuthResponse
  unfolding rotate
  refresh_tokens salt user_id raw db =
      refresh_found salt user_id raw (find_row User.id user_id db.users) db

unfoldable pub logout : ℕ → Exec AuthDb (Unit {0})
logout user_id = update_user user_id (λ u. record u { refresh_token_hash = none })
