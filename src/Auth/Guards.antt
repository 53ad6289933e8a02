-- ===== src/Auth/Guards.antt =====
-- `JwtStrategy.validate` of src/modules/auth/strategies/jwt.strategy.ts, for a token whose signature
-- and time have been checked, and the guards of src/common/guards.
use transact_go.Auth.Interfaces.{JwtPayload}
use transact_go.Auth.Service.{AuthDb, AuthUser, auth_user_of}
use transact_go.Outcome.{
  Exception, Result, account_closed, account_suspended, authentication_required, err, forbidden, ok,
  tier_required, token_expired, token_invalid, unauthorized, user_gone,
}
use transact_go.Prelude.{
  Bool, List, Option, String, false, if◌then◌else◌, ltb, none, some, str_eq, true,
}
use transact_go.Prelude.Rows.{find_row}
use transact_go.Users.Entities.{KycTier, User, UserStatus, level}

abbrev pub check_status : User → Result AuthUser
check_status u = elim u.status [
  | UserStatus.suspended ↦ err (unauthorized account_suspended)
  | UserStatus.closed ↦ err (unauthorized account_closed)
  | _ ↦ ok (auth_user_of u)
]

abbrev pub validate_found : Option User → Result AuthUser
validate_found none = err (unauthorized user_gone)
validate_found (some u) = check_status u

unfoldable pub validate : JwtPayload → AuthDb → Result AuthUser
validate payload db = validate_found (find_row User.id payload.sub db.users)

-- `requiredTier` is undefined on a route without the decorator.
unfoldable pub can_activate : Option KycTier → Option AuthUser → Result Bool
can_activate none user = ok true
can_activate (some tier) none = err (forbidden authentication_required)
can_activate (some tier) (some user) =
    if ltb (level user.kyc_tier) (level tier) then err (forbidden tier_required) else ok true

-- What passport-jwt says of the header: a payload, or the name of the error that it passes on.
pub data TokenCheck : Type 0 where
  valid_token : JwtPayload → TokenCheck
  invalid_token : Option String → TokenCheck

abbrev pub error_or : Option Exception → Exception
error_or none = unauthorized authentication_required
error_or (some e) = e

abbrev pub is_named : String → Option String → Bool
is_named name none = false
is_named name (some s) = str_eq s name

abbrev pub refuse : Option Exception → Option String → Result AuthUser
refuse error info =
    if is_named "TokenExpiredError" info
    then err (unauthorized token_expired)
    else if is_named "JsonWebTokenError" info
    then err (unauthorized token_invalid)
    else err (error_or error)

-- `JwtAuthGuard.handleRequest`
unfoldable pub handle_request :
    Option Exception → Option AuthUser → (info : Option String) → Result AuthUser
handle_request none (some user) info = ok user
handle_request error user info = refuse error info

abbrev pub after_validate : Result AuthUser → Result AuthUser
unfolding handle_request
after_validate (ok user) = handle_request none (some user) none
after_validate (err e) = handle_request (some e) none none

-- The strategy and the guard: who the request is from.
unfoldable pub authenticate : TokenCheck → List User → Result AuthUser
unfolding handle_request
authenticate (valid_token payload) users =
    after_validate (validate_found (find_row User.id payload.sub users))
authenticate (invalid_token info) users = handle_request none none info

-- `JwtAuthGuard.canActivate`: on a public route no one is looked up.
unfoldable pub jwt_can_activate : Bool → TokenCheck → List User → Result (Option AuthUser)
unfolding authenticate
jwt_can_activate true token users = ok none
jwt_can_activate false token users = elim (authenticate token users) [
  | ok user ↦ ok (some user)
  | err e ↦ err e
]
