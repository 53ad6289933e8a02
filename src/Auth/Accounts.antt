-- ===== src/Auth/Accounts.antt =====
-- The table of users under the routes of src/modules/auth/auth.controller.ts.
use transact_go.Auth.Accepted.{IsAccepted, parse_register-IsAccepted}
use transact_go.Auth.Bodies.{Validator, parse_login, parse_register}
use transact_go.Auth.Guards.{authenticate, invalid_token, valid_token}
use transact_go.Auth.Interfaces.{Bcrypt, Jwt}
use transact_go.Auth.Registry.{
  IsRegistry, clear_attempts-IsKeeping, find-IsFree, update_row-IsRegistry, update_user-IsRegistry,
}
use transact_go.Auth.Routes.{
  Call, bearer, login_parsed, logout_as, logs_in, logs_out, post_login, post_logout, post_refresh,
  post_register, refresh_undefined, refresh_with, refreshes, register_parsed, registers, serve,
  serve_all,
}
use transact_go.Auth.Service.{
  AuthDb, AuthUser, LoginDto, RegisterDto, admit, check_password, clear_attempts, failed_attempt,
  find_by_email, generate_token_response, has_text, is_locked_out, is_suspended, login, logout,
  new_user, or_empty, record_failed_attempt, refresh_found, refresh_tokens, register, rotate,
  stored_hash, update_user,
}
use transact_go.Outcome.{Result, err, ok}
use transact_go.Prelude.{
  Bool, Bool-cases, List, Option, String, [], false, inl, inr, none, refl, some, true, ℕ, ◌+◌, ◌∷◌,
  ◌≡◌,
}
use transact_go.Prelude.Rows.{find_row}
use transact_go.Reports.History.{live}
use transact_go.Users.Entities.{User}

module _ (v : Validator) (bcrypt : Bcrypt) (jwt : Jwt) where
  generate_token_response-IsRegistry :
      (salt : ℕ) (u : User) (db : AuthDb)
      → IsRegistry v bcrypt db.users
      → IsRegistry v bcrypt (generate_token_response bcrypt jwt salt u db).1.users
  unfolding generate_token_response
  generate_token_response-IsRegistry salt u db h =
      update_row-IsRegistry v bcrypt u.id _ db.users (λ u. refl, λ u h. h) h

  register-IsRegistry :
      (password_salt salt : ℕ) (dto : RegisterDto) (db : AuthDb)
      → IsAccepted v dto
      → IsRegistry v bcrypt db.users
      → IsRegistry v bcrypt (register bcrypt jwt password_salt salt dto db).1.users
  unfolding register
  register-IsRegistry password_salt salt dto db (address, first, last, password) h =
      elim (find_by_email dto.email db)
          as (λ x.
            find_by_email dto.email db ≡ x
            → IsRegistry v bcrypt (register bcrypt jwt password_salt salt dto db).1.users) [
              | some u ↦ λ taken. rw taken h
              | none ↦ λ free.
                  let saved : User =
                    new_user dto (bcrypt.hash password_salt dto.password) db.next_id db.now in
                  rw free (
                    generate_token_response-IsRegistry salt saved
                      (record db { users = saved ∷ db.users; next_id = db.next_id + 1 })
                      (
                        (address, first, last, (password_salt, dto.password, password, refl)),
                        find-IsFree v bcrypt dto.email db.users free,
                        h,
                      ))
            ]
        refl

  admit-IsRegistry :
      (salt : ℕ) (u : User) (db : AuthDb)
      → IsRegistry v bcrypt db.users
      → IsRegistry v bcrypt (admit bcrypt jwt salt u db).1.users
  unfolding admit
  admit-IsRegistry salt u db h =
      let cleared : AuthDb =
        (update_user u.id (clear_attempts u.failed_login_attempts db.now) db).1 in
      let kept : IsRegistry v bcrypt cleared.users =
        update_user-IsRegistry v bcrypt u.id (clear_attempts u.failed_login_attempts db.now) db
          (clear_attempts-IsKeeping v bcrypt u.failed_login_attempts db.now) h in
      elim (Bool-cases (is_suspended u.status)) [
        | inl gone ↦ rw gone kept
        | inr live ↦ rw live (generate_token_response-IsRegistry salt u cleared kept)
      ]

  check_password-IsRegistry :
      (salt : ℕ) (valid : Bool) (found : Option User) (db : AuthDb)
      → IsRegistry v bcrypt db.users
      → IsRegistry v bcrypt (check_password bcrypt jwt salt valid found db).1.users
  unfolding check_password record_failed_attempt
  check_password-IsRegistry salt valid none db h = h
  check_password-IsRegistry salt false (some u) db h =
      update_user-IsRegistry v bcrypt u.id (failed_attempt (u.failed_login_attempts + 1) db.now) db
        (λ x. refl, λ x a. a) h
  check_password-IsRegistry salt true (some u) db h = admit-IsRegistry salt u db h

  login-IsRegistry :
      (salt : ℕ) (dto : LoginDto) (db : AuthDb)
      → IsRegistry v bcrypt db.users
      → IsRegistry v bcrypt (login bcrypt jwt salt dto db).1.users
  unfolding login
  login-IsRegistry salt dto db h =
      let found = find_by_email dto.email db in
      elim (Bool-cases (is_locked_out db.now found)) [
        | inl locked ↦ rw locked h
        | inr free ↦ rw free (
            check_password-IsRegistry salt (bcrypt.compare dto.password (stored_hash found)) found
              db h)
      ]

  rotate-IsRegistry :
      (salt k : ℕ) (same : Bool) (u : User) (db : AuthDb)
      → IsRegistry v bcrypt db.users
      → IsRegistry v bcrypt (rotate bcrypt jwt salt k same u db).1.users
  unfolding rotate
  rotate-IsRegistry salt k true u db h = generate_token_response-IsRegistry salt u db h
  rotate-IsRegistry salt k false u db h =
      update_user-IsRegistry v bcrypt k _ db (λ x. refl, λ x a. a) h

  refresh_found-IsRegistry :
      (salt k : ℕ) (raw : String) (found : Option User) (db : AuthDb)
      → IsRegistry v bcrypt db.users
      → IsRegistry v bcrypt (refresh_found bcrypt jwt salt k raw found db).1.users
  refresh_found-IsRegistry salt k raw none db h = h
  refresh_found-IsRegistry salt k raw (some u) db h =
      elim (Bool-cases (has_text u.refresh_token_hash)) [
        | inl there ↦
            rw there
              (rotate-IsRegistry salt k (bcrypt.compare raw (or_empty u.refresh_token_hash)) u db h)
        | inr gone ↦ rw gone h
      ]

  refresh_undefined-IsRegistry :
      (found : Option User) (db : AuthDb)
      → IsRegistry v bcrypt db.users
      → IsRegistry v bcrypt (refresh_undefined bcrypt jwt found db).1.users
  refresh_undefined-IsRegistry none db h = h
  refresh_undefined-IsRegistry (some u) db h = h

  refresh_with-IsRegistry :
      (salt k : ℕ) (raw : Option String) (db : AuthDb)
      → IsRegistry v bcrypt db.users
      → IsRegistry v bcrypt (refresh_with bcrypt jwt salt k raw db).1.users
  unfolding refresh_tokens
  refresh_with-IsRegistry salt k none db h =
      refresh_undefined-IsRegistry (find_row User.id k db.users) db h
  refresh_with-IsRegistry salt k (some raw) db h =
      refresh_found-IsRegistry salt k raw (find_row User.id k db.users) db h

  register_parsed-IsRegistry :
      (password_salt salt : ℕ) (r : Result RegisterDto) (db : AuthDb)
      → ((dto : RegisterDto) → r ≡ ok dto → IsAccepted v dto)
      → IsRegistry v bcrypt db.users
      → IsRegistry v bcrypt (register_parsed v bcrypt jwt password_salt salt r db).1.users
  register_parsed-IsRegistry password_salt salt (ok dto) db holds h =
      register-IsRegistry password_salt salt dto db (holds dto refl) h
  register_parsed-IsRegistry password_salt salt (err e) db holds h = h

  login_parsed-IsRegistry :
      (salt : ℕ) (r : Result LoginDto) (db : AuthDb)
      → IsRegistry v bcrypt db.users
      → IsRegistry v bcrypt (login_parsed v bcrypt jwt salt r db).1.users
  login_parsed-IsRegistry salt (ok dto) db h = login-IsRegistry salt dto db h
  login_parsed-IsRegistry salt (err e) db h = h

  logout_as-IsRegistry :
      (r : Result AuthUser) (db : AuthDb)
      → IsRegistry v bcrypt db.users
      → IsRegistry v bcrypt (logout_as r db).1.users
  unfolding logout
  logout_as-IsRegistry (ok user) db h =
      update_user-IsRegistry v bcrypt user.id _ db (λ x. refl, λ x a. a) h
  logout_as-IsRegistry (err e) db h = h

  serve-IsRegistry :
      (call : Call) (db : AuthDb)
      → IsRegistry v bcrypt db.users
      → IsRegistry v bcrypt (serve v bcrypt jwt call db).users
  unfolding serve post_register post_login post_refresh post_logout
  serve-IsRegistry (registers password_salt salt body) db h =
      register_parsed-IsRegistry password_salt salt (parse_register v body) db
        (parse_register-IsAccepted v body) h
  serve-IsRegistry (logs_in salt body) db h = login_parsed-IsRegistry salt (parse_login v body) db h
  serve-IsRegistry (refreshes salt (valid_token payload) authorization) db h =
      refresh_with-IsRegistry salt payload.sub (bearer authorization) db h
  serve-IsRegistry (refreshes salt (invalid_token info) authorization) db h = h
  serve-IsRegistry (logs_out token) db h = logout_as-IsRegistry (authenticate token db.users) db h

  -- Requests to register, log in, refresh and log out, one after the other, with any bodies and
  -- tokens and in any order, keep the table of users a registry: every account has an email that the
  -- decorators accept, lowered and trimmed, names of 2 to 50 characters, and the hash of a password
  -- of 8 to 128 characters with a lower case letter, an upper case letter and a digit in its first
  -- line, and no two accounts have the same email.
  pub serve_all-IsRegistry :
      (calls : List (ℕ × Call)) (db : AuthDb)
      → IsRegistry v bcrypt db.users
      → IsRegistry v bcrypt (serve_all v bcrypt jwt calls db).users
  unfolding serve_all
  serve_all-IsRegistry [] db h = h
  serve_all-IsRegistry ((now, call) ∷ rest) db h =
      let timed : AuthDb = record db { now = now } in
      serve_all-IsRegistry rest (serve v bcrypt jwt call timed) (serve-IsRegistry call timed h)
