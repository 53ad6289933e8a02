-- ===== src/Auth/Routes.antt =====
-- src/modules/auth/auth.controller.ts, and `JwtRefreshStrategy.validate` of
-- src/modules/auth/strategies/jwt-refresh.strategy.ts for a token whose signature and time
-- passport-jwt has checked. `Call` is a request to one of the routes, with the salts that its hashes
-- would draw. Requests that the throttler refuses do not come here.
use transact_go.Auth.Bodies.{LoginBody, RegisterBody, Validator, parse_login, parse_register}
use transact_go.Auth.Guards.{TokenCheck, authenticate, invalid_token, valid_token}
use transact_go.Auth.Interfaces.{Bcrypt, Jwt}
use transact_go.Auth.Service.{
  AuthDb, AuthResponse, AuthUser, LoginDto, RegisterDto, has_text, login, logout, refresh_tokens,
  register,
}
use transact_go.Outcome.{
  Exec, Result, err, forbidden, internal, login_again, not_authenticated, ok, token_missing,
  unauthorized,
}
use transact_go.Prelude.{List, Option, String, [], if◌then◌else◌, none, some, ℕ, ◌∷◌}
use transact_go.Prelude.Rows.{find_row}
use transact_go.Prelude.Texts.{split}
use transact_go.Users.Entities.{User}

-- `parts[1]`
abbrev pub second_part : List String → Option String
second_part (_ ∷ s ∷ _) = some s
second_part _ = none

-- `req.headers.authorization?.split(' ')[1]`
unfoldable pub bearer : Option String → Option String
bearer none = none
bearer (some header) = second_part (split 32 header)

module _ (v : Validator) (bcrypt : Bcrypt) (jwt : Jwt) where
  abbrev pub register_parsed : ℕ → ℕ → Result RegisterDto → Exec AuthDb AuthResponse
  register_parsed password_salt salt (ok dto) db = register bcrypt jwt password_salt salt dto db
  register_parsed password_salt salt (err e) db = (err e, db)

  unfoldable pub post_register : ℕ → ℕ → RegisterBody → Exec AuthDb AuthResponse
  unfolding parse_register
  post_register password_salt salt body = register_parsed password_salt salt (parse_register v body)

  abbrev pub login_parsed : ℕ → Result LoginDto → Exec AuthDb AuthResponse
  login_parsed salt (ok dto) db = login bcrypt jwt salt dto db
  login_parsed salt (err e) db = (err e, db)

  unfoldable pub post_login : ℕ → LoginBody → Exec AuthDb AuthResponse
  unfolding parse_login
  post_login salt body = login_parsed salt (parse_login v body)

module _ (bcrypt : Bcrypt) (jwt : Jwt) where
  -- `refreshTokens` with an undefined token: `bcrypt.compare` throws, where it is reached.
  abbrev pub refresh_undefined : Option User → Exec AuthDb AuthResponse
  refresh_undefined none db = (err (forbidden login_again), db)
  refresh_undefined (some user) db = (
    err (
        if has_text user.refresh_token_hash then internal token_missing else forbidden login_again),
    db,
  )

  abbrev pub refresh_with : ℕ → ℕ → Option String → Exec AuthDb AuthResponse
  refresh_with salt sub (some raw) db = refresh_tokens bcrypt jwt salt sub raw db
  refresh_with salt sub none db = refresh_undefined (find_row User.id sub db.users) db

  unfoldable pub post_refresh :
      ℕ → TokenCheck → (authorization : Option String) → Exec AuthDb AuthResponse
  unfolding bearer
  post_refresh salt (valid_token payload) authorization db =
      refresh_with salt payload.sub (bearer authorization) db
  post_refresh salt (invalid_token _) authorization db = (err (unauthorized not_authenticated), db)

abbrev pub logout_as : Result AuthUser → Exec AuthDb (Unit {0})
logout_as (ok user) db = logout user.id db
logout_as (err e) db = (err e, db)

-- Behind `JwtAuthGuard`.
unfoldable pub post_logout : TokenCheck → Exec AuthDb (Unit {0})
unfolding authenticate
post_logout token db = logout_as (authenticate token db.users) db

pub data Call : Type 0 where
  registers : ℕ → ℕ → RegisterBody → Call
  logs_in : ℕ → LoginBody → Call
  refreshes : ℕ → TokenCheck → Option String → Call
  logs_out : TokenCheck → Call

module _ (v : Validator) (bcrypt : Bcrypt) (jwt : Jwt) where
  unfoldable pub serve : Call → AuthDb → AuthDb
  unfolding post_register post_login post_refresh post_logout
  serve (registers password_salt salt body) db =
      (post_register v bcrypt jwt password_salt salt body db).1
  serve (logs_in salt body) db = (post_login v bcrypt jwt salt body db).1
  serve (refreshes salt token authorization) db =
      (post_refresh bcrypt jwt salt token authorization db).1
  serve (logs_out token) db = (post_logout token db).1

  -- Requests at their times, one after the other.
  unfoldable pub serve_all : List (ℕ × Call) → AuthDb → AuthDb
  unfolding serve
  serve_all [] db = db
  serve_all ((now, call) ∷ rest) db = serve_all rest (serve call (record db { now = now }))
