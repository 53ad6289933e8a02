-- ===== src/Tests/Auth.antt =====
-- The theorems on the authentication, applied to one account.
use text.Mathlib.TextPositions.{eq_refl}
use transact_go.Auth.Accounts.{serve_all-IsRegistry}
use transact_go.Auth.Bodies.{
  RegisterBody, Validator, is_strong, looks_ahead, parse_register, register_violations,
}
use transact_go.Auth.Guards.{valid_token}
use transact_go.Auth.Interfaces.{Bcrypt, Jwt}
use transact_go.Auth.Lockout.{attempt_all, login-attempt_all}
use transact_go.Auth.Registry.{IsRegistry}
use transact_go.Auth.Routes.{
  Call, logs_in, logs_out, post_login, post_register, registers, serve_all,
}
use transact_go.Auth.Service.{
  AuthDb, AuthResponse, RegisterDto, generate_token_response, login, new_user, payload_of,
  refresh_tokens,
}
use transact_go.Auth.Sessions.{clock_at, refresh_tokens_twice, response}
use transact_go.Auth.SignUp.{login_body, post_login-post_register}
use transact_go.Auth.Unlock.{login-attempt_all_over}
use transact_go.Outcome.{account_locked, err, ok, unauthorized}
use transact_go.Prelude.{
  Bool-cases, List, String, [], arith, false, if◌then◌else◌, inl, inr, refl, some, str_eq, suc,
  zero, ℕ, ◌+◌, ◌==◌, ◌∷◌, ◌≡◌,
}
use transact_go.Tests.Fixtures.{payer}
use transact_go.Users.Entities.{User, is_locked}
use Prim.Native.Char.{char, code}

abbrev pub filled_of : String → String
filled_of x = if str_eq x "" then "empty" else x

pub filled_of_nonempty : (x : String) → str_eq (filled_of x) "" ≡ false
filled_of_nonempty x = elim (Bool-cases (str_eq x "")) [
  | inl gone ↦ rw gone refl
  | inr there ↦ rw (there, there) refl
]

abbrev pub plain_bcrypt : Bcrypt
plain_bcrypt = record {
  hash = λ salt x. filled_of x;
  compare = λ x h. str_eq (filled_of x) h;
  effective = λ x. x;
  compare-hash = λ x y salt e. rw e (eq_refl (filled_of y));
  hash_nonempty = λ salt x. filled_of_nonempty x;
}

abbrev pub plain_jwt : Jwt
plain_jwt = record { sign_access = λ p now. "access"; sign_refresh = λ p now. "refresh" }

abbrev pub member : User
member = record payer { password_hash = "right" }

abbrev pub members : AuthDb
members = record { users = member ∷ []; next_id = 9; now = 1000 }

abbrev guesses : List (ℕ × String)
guesses = (2, "b") ∷ (3, "c") ∷ (4, "d") ∷ (5, "e") ∷ []

login-attempt_all_example :
    login plain_bcrypt plain_jwt 6
      (record { email = "a@example.org"; password = "right" })
      (record (attempt_all plain_bcrypt plain_jwt "a@example.org" ((1, "a") ∷ guesses) members) {
        now = 2000;
      })
    ≡ (
      err (unauthorized account_locked),
      record (attempt_all plain_bcrypt plain_jwt "a@example.org" ((1, "a") ∷ guesses) members) {
        now = 2000;
      },
    )
unfolding is_locked
login-attempt_all_example =
    login-attempt_all plain_bcrypt plain_jwt "a@example.org" (1, "a") guesses member members refl
      refl (refl, (refl, (refl, (refl, (refl, tt))))) (omega arith) 2000 6 "right" (omega arith)

login-attempt_all_over_example :
    (session : AuthResponse) × ((login plain_bcrypt plain_jwt 6
        (record { email = "a@example.org"; password = "right" })
        (clock_at 1_801_000
          (attempt_all plain_bcrypt plain_jwt "a@example.org" ((1, "a") ∷ guesses) members))).0
      ≡ ok session)
unfolding is_locked
login-attempt_all_over_example =
    login-attempt_all_over plain_bcrypt plain_jwt "a@example.org" (1, "a") guesses member members
      refl refl (refl, (refl, (refl, (refl, (refl, tt))))) (omega arith) 1_801_000 6 "right"
      (omega arith) refl refl

-- `B` and a space at the front of a text are what these lower and trim.
abbrev lower_b : String → String
lower_b String.[] = String.[]
lower_b (String.◌∷◌ c s) = String.◌∷◌ (if code c == 66 then char 98 tt else c) (lower_b s)

abbrev trim_one : String → String
trim_one String.[] = String.[]
trim_one (String.◌∷◌ c s) = if code c == 32 then s else String.◌∷◌ c s

abbrev count_chars : String → ℕ
count_chars String.[] = 0
count_chars (String.◌∷◌ c s) = count_chars s + 1

unfoldable plain_validator : Validator
plain_validator = record {
  lower = lower_b;
  trim = trim_one;
  is_email = λ s. looks_ahead (λ c. code c == 64) s;
  length_of = count_chars;
  length_of_empty = refl;
}

abbrev sign_up : RegisterBody
sign_up = record {
  email = some " B@example.org";
  first_name = some "Cy";
  last_name = some "Da";
  password = some "Secret99";
  others = [];
}

abbrev accepted_dto : RegisterDto
accepted_dto = record {
  email = "b@example.org";
  first_name = "Cy";
  last_name = "Da";
  password = "Secret99";
}

sign_up-parse : parse_register plain_validator sign_up ≡ ok accepted_dto
unfolding parse_register register_violations is_strong looks_ahead plain_validator
sign_up-parse = refl

post_login-post_register_example :
    ((post_register plain_validator plain_bcrypt plain_jwt 1 2 sign_up members).0
      ≡ ok (response plain_jwt (new_user accepted_dto "Secret99" 9 1000) 1000))
    × ((post_login plain_validator plain_bcrypt plain_jwt 3
          (login_body plain_validator (some "B@example.org") sign_up)
          (clock_at 5000
            (post_register plain_validator plain_bcrypt plain_jwt 1 2 sign_up members).1)).0
        ≡ ok (response plain_jwt (new_user accepted_dto "Secret99" 9 1000) 5000))
unfolding plain_validator
post_login-post_register_example =
    post_login-post_register plain_validator plain_bcrypt plain_jwt 1 2 3 5000 sign_up
      (some "B@example.org") accepted_dto members sign_up-parse refl refl

abbrev requests : List (ℕ × Call)
requests =
    (1, registers 1 2 sign_up)
    ∷ (
      2,
      logs_in 3 (record { email = some "b@example.org"; password = some "Secret99"; others = [] }),
    )
    ∷ (3, registers 4 5 sign_up)
    ∷ (4, logs_out (valid_token (payload_of member)))
    ∷ []

abbrev empty_table : AuthDb
empty_table = record { users = []; next_id = 9; now = 0 }

serve_all-IsRegistry_example :
    IsRegistry plain_validator plain_bcrypt
      (serve_all plain_validator plain_bcrypt plain_jwt requests empty_table).users
serve_all-IsRegistry_example =
    serve_all-IsRegistry plain_validator plain_bcrypt plain_jwt requests empty_table tt

-- Tokens that differ from one time to another behind their first four characters, all that this
-- bcrypt reads.
abbrev first_four : String → String
first_four (String.◌∷◌ a (String.◌∷◌ b (String.◌∷◌ c (String.◌∷◌ d s)))) =
    String.◌∷◌ a (String.◌∷◌ b (String.◌∷◌ c (String.◌∷◌ d "")))
first_four s = s

abbrev short_bcrypt : Bcrypt
short_bcrypt = record {
  hash = λ salt x. filled_of (first_four x);
  compare = λ x h. str_eq (filled_of (first_four x)) h;
  effective = first_four;
  compare-hash = λ x y salt e. rw e (eq_refl (filled_of (first_four y)));
  hash_nonempty = λ salt x. filled_of_nonempty (first_four x);
}

abbrev stamp : ℕ → String
stamp zero = ""
stamp (suc n) = String.◌∷◌ (char 120 tt) (stamp n)

abbrev stamped : ℕ → String
stamped now =
    String.◌∷◌ (char 101 tt)
      (String.◌∷◌ (char 121 tt) (String.◌∷◌ (char 74 tt) (String.◌∷◌ (char 46 tt) (stamp now))))

abbrev stamped_jwt : Jwt
stamped_jwt = record { sign_access = λ p now. "access"; sign_refresh = λ p now. stamped now }

-- The token of time 1 is replaced by that of time 2, which is another, and accepted again at time 3.
refresh_tokens_twice_example :
    let issued =
      clock_at 2
        (generate_token_response short_bcrypt stamped_jwt 1 member (clock_at 1 members)).1 in
    let rotated = clock_at 3 (refresh_tokens short_bcrypt stamped_jwt 2 7 "eyJ.x" issued).1 in
    ((refresh_tokens short_bcrypt stamped_jwt 2 7 "eyJ.x" issued).0
      ≡ ok (record (response stamped_jwt member 2) { refresh_token = "eyJ.xx" }))
    × ((refresh_tokens short_bcrypt stamped_jwt 3 7 "eyJ.x" rotated).0
        ≡ ok (record (response stamped_jwt member 3) { refresh_token = "eyJ.xxx" }))
refresh_tokens_twice_example =
    refresh_tokens_twice short_bcrypt stamped_jwt member (clock_at 1 members) refl (λ p s t. refl) 1
      2 3 2 3
