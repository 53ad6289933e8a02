-- ===== src/Auth/SignUp.antt =====
-- An account of src/modules/auth/auth.controller.ts from the body that registers it to a body that
-- logs in.
use transact_go.Auth.Accepted.{check_text-password, parse_register_clean}
use transact_go.Auth.Bodies.{
  LoginBody, RegisterBody, Validator, login_violations, normalise_field, parse_login,
  parse_register,
}
use transact_go.Auth.Interfaces.{Bcrypt, Jwt}
use transact_go.Auth.Registration.{login-register, registered}
use transact_go.Auth.Routes.{post_login, post_register}
use transact_go.Auth.Service.{AuthDb, RegisterDto, find_by_email}
use transact_go.Auth.Sessions.{clock_at, response}
use transact_go.Outcome.{ok}
use transact_go.Prelude.{Option, String, [], none, refl, sym, ℕ, ◌≡◌}

module _ (v : Validator) where
  -- The body of a login with another spelling of the email.
  abbrev pub login_body : Option String → RegisterBody → LoginBody
  login_body address body = record { email = address; password = body.password; others = [] }

  login_body-parse :
      (address : Option String) (body : RegisterBody) (dto : RegisterDto)
      → parse_register v body ≡ ok dto
      → normalise_field v address ≡ normalise_field v body.email
      → parse_login v (login_body address body)
        ≡ ok (record { email = dto.email; password = dto.password })
  unfolding parse_login login_violations
  login_body-parse address body dto e spelling =
      let (same, clean, _, _, password) = parse_register_clean v body dto e in
      rw (spelling, clean, check_text-password v body.password password, sym same) refl

module _ (v : Validator) (bcrypt : Bcrypt) (jwt : Jwt) where
  -- Take a body that the decorators accept, with an email that no account has once it is lowered and
  -- trimmed. Registering with it returns a session for the new account, and a login at any later
  -- time, with the same password and any spelling of the email that is lowered and trimmed to the
  -- same, returns one for the same account.
  pub post_login-post_register :
      (password_salt salt salt' later : ℕ) (body : RegisterBody) (address : Option String)
      (dto : RegisterDto) (db : AuthDb)
      → parse_register v body ≡ ok dto
      → find_by_email dto.email db ≡ none
      → normalise_field v address ≡ normalise_field v body.email
      → ((post_register v bcrypt jwt password_salt salt body db).0
          ≡ ok (response jwt (registered bcrypt jwt password_salt dto db) db.now))
        × ((post_login v bcrypt jwt salt'
              (login_body v address body)
              (clock_at later (post_register v bcrypt jwt password_salt salt body db).1)).0
            ≡ ok (response jwt (registered bcrypt jwt password_salt dto db) later))
  unfolding post_login post_register
  post_login-post_register password_salt salt salt' later body address dto db e free spelling =
      rw (e, login_body-parse v address body dto e spelling)
        (login-register bcrypt jwt password_salt salt salt' later dto db free)
