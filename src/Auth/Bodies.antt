-- ===== src/Auth/Bodies.antt =====
-- The bodies of the routes of src/modules/auth: the decorators of src/modules/auth/dto/auth.dto.ts
-- under the validation pipe that src/main.ts sets up. The pipe turns a value into a text before the
-- decorators read it, so that a field is a text, or `none` when it is null or missing; an array does
-- not come here.
--
-- `lower` and `trim` are JavaScript's `toLowerCase` and `trim`. `is_email` and `length_of` are the
-- checks of the `validator` package, which count the characters of a text in their own way.
use Prim.Native.Char.{Char, code}
use transact_go.Auth.Service.{LoginDto, RegisterDto}
use transact_go.Outcome.{Result, bad_request, err, invalid_body, ok}
use transact_go.Prelude.{
  Bool, List, Option, String, [], false, if◌then◌else◌, leb, none, not, some, str_eq, ℕ, ◌&&◌, ◌++◌,
  ◌||◌, ◌∷◌, ◌≡◌,
}
use transact_go.Prelude.Texts.{is_line_end}

pub record Validator : Type 0 where
  pub lower : String → String
  pub trim : String → String
  pub is_email : String → Bool
  pub length_of : String → ℕ
  pub length_of_empty : length_of "" ≡ 0

-- `others` are the fields that the DTO does not have.
pub record RegisterBody : Type 0 where
  pub email : Option String
  pub first_name : Option String
  pub last_name : Option String
  pub password : Option String
  pub others : List String

pub record LoginBody : Type 0 where
  pub email : Option String
  pub password : Option String
  pub others : List String

-- What a decorator says of a field, in the order of the source.
pub data Violation : Type 0 where
  not_email not_text empty too_short too_long weak unknown_field : Violation

abbrev pub require : Bool → Violation → List Violation
require c v = if c then [] else v ∷ []

-- A character in a range of codes.
abbrev pub between : ℕ → ℕ → Char → Bool
between low high c = leb low (code c) && leb (code c) high

-- `^(?=.*[…])`, where the dot stops at the end of a line.
unfoldable pub looks_ahead : (Char → Bool) → String → Bool
looks_ahead test String.[] = false
looks_ahead test (String.◌∷◌ c s) =
    let rest = looks_ahead test s in test c || (not (is_line_end c) && rest)

-- `/^(?=.*[a-z])(?=.*[A-Z])(?=.*\d)/`
unfoldable pub is_strong : String → Bool
unfolding looks_ahead
is_strong s =
    looks_ahead (between 97 122) s && looks_ahead (between 65 90) s && looks_ahead (between 48 57) s

abbrev pub no_others : List String → List Violation
no_others [] = []
no_others (_ ∷ _) = unknown_field ∷ []

abbrev pub or_blank : Option String → String
or_blank none = ""
or_blank (some s) = s

-- `@IsString() @IsNotEmpty()`
abbrev pub check_text : Option String → List Violation
check_text none = not_text ∷ empty ∷ []
check_text (some s) = require (not (str_eq s "")) empty

module _ (v : Validator) where
  -- `value?.toLowerCase().trim()`
  abbrev pub normalise : String → String
  normalise s = v.trim (v.lower s)

  abbrev pub normalise_field : Option String → Option String
  normalise_field none = none
  normalise_field (some s) = some (normalise s)

  abbrev pub check_email : Option String → List Violation
  check_email none = not_email ∷ []
  check_email (some s) = require (v.is_email s) not_email

  -- `@MinLength(low) @MaxLength(high)`
  abbrev pub check_length : ℕ → ℕ → Option String → List Violation
  check_length low high none = too_short ∷ too_long ∷ []
  check_length low high (some s) =
      require (leb low (v.length_of s)) too_short ++ require (leb (v.length_of s) high) too_long

  abbrev pub check_name : Option String → List Violation
  check_name name = check_text name ++ check_length 2 50 name

  -- `@IsString() @MinLength(8) @MaxLength(128) @Matches(…)`
  abbrev pub check_password_text : Option String → List Violation
  check_password_text none = not_text ∷ too_short ∷ too_long ∷ weak ∷ []
  check_password_text (some s) = check_length 8 128 (some s) ++ require (is_strong s) weak

  unfoldable pub register_violations : RegisterBody → List Violation
  register_violations b =
      no_others b.others
      ++ check_email (normalise_field b.email)
      ++ check_name b.first_name
      ++ check_name b.last_name
      ++ check_password_text b.password

  unfoldable pub login_violations : LoginBody → List Violation
  login_violations b =
      no_others b.others ++ check_email (normalise_field b.email) ++ check_text b.password

  abbrev pub accept : {D : Type 0} → List Violation → D → Result D
  accept [] dto = ok dto
  accept (_ ∷ _) dto = err (bad_request invalid_body)

  abbrev pub register_dto : RegisterBody → RegisterDto
  register_dto b = record {
    email = or_blank (normalise_field b.email);
    first_name = or_blank b.first_name;
    last_name = or_blank b.last_name;
    password = or_blank b.password;
  }

  abbrev pub login_dto : LoginBody → LoginDto
  login_dto b = record {
    email = or_blank (normalise_field b.email);
    password = or_blank b.password;
  }

  unfoldable pub parse_register : RegisterBody → Result RegisterDto
  unfolding register_violations
  parse_register b = accept (register_violations b) (register_dto b)

  unfoldable pub parse_login : LoginBody → Result LoginDto
  unfolding login_violations
  parse_login b = accept (login_violations b) (login_dto b)
