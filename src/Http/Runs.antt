-- ===== src/Http/Runs.antt =====
-- What a request to the routes of Http/Transfers does: it is declined, or its service runs.
use transact_go.Auth.Guards.{
  TokenCheck, after_validate, authenticate, can_activate, check_status, handle_request,
  invalid_token, refuse, valid_token, validate_found,
}
use transact_go.Auth.Interfaces.{JwtPayload}
use transact_go.Auth.Service.{AuthUser, auth_user_of}
use transact_go.Http.Transfers.{
  BodyCheck, HttpRequest, HttpResponse, accepted, after_guards, after_token, as_request, failure,
  refused, respond, respond_result, respond_run, route, route_for, route_handler, stored, success,
}
use transact_go.Idempotency.Cases.{IsHeld, held, intercept-Ends, ran}
use transact_go.Idempotency.Interceptor.{
  IdempotencyRecord, Reply, Server, answered, intercept, rejected, replayed,
}
use transact_go.Outcome.{Exception, Exec, Reason, Result, err, ok, unauthorized, user_gone}
use transact_go.Prelude.{
  Bool, List, Option, String, ap, arith, inl, inr, none, refl, some, true, ℕ, ◌≡◌, ◌≢◌, ◌≤◌, ◌⊎◌,
}
use transact_go.Prelude.Rows.{find_row}
use transact_go.Transfers.Entities.{Transfer}
use transact_go.Transfers.Store.{Db}
use transact_go.Users.Entities.{KycTier, User, UserStatus, level}

-- The user behind a token that the guard accepts.
pub record IsSignedIn (users : List User) (token : TokenCheck) (user : AuthUser) : Type 0 where
  pub payload : JwtPayload
  pub row : User
  pub signed : token ≡ valid_token payload
  pub found : find_row User.id payload.sub users ≡ some row
  pub same : user ≡ auth_user_of row
  pub not_suspended : row.status ≢ UserStatus.suspended
  pub not_closed : row.status ≢ UserStatus.closed

refuse-ne-ok :
    (error : Option Exception) (info : Option String) (user : AuthUser)
    → refuse error info ≢ ok user
refuse-ne-ok error info user e = ground arith

check_status-ok :
    (row : User) (user : AuthUser) (status : UserStatus)
    → row.status ≡ status
    → after_validate (check_status row) ≡ ok user
    → (user ≡ auth_user_of row)
      × (row.status ≢ UserStatus.suspended)
      × (row.status ≢ UserStatus.closed)
unfolding handle_request
check_status-ok row user UserStatus.pending is e = ground arith
check_status-ok row user UserStatus.active is e = ground arith
check_status-ok row user UserStatus.suspended is e = ground arith
check_status-ok row user UserStatus.closed is e = ground arith

validate_found-ok :
    (o : Option User) (user : AuthUser)
    → after_validate (validate_found o) ≡ ok user
    → (row : User) × (o ≡ some row)
      × (user ≡ auth_user_of row)
      × (row.status ≢ UserStatus.suspended)
      × (row.status ≢ UserStatus.closed)
unfolding handle_request
validate_found-ok none user e = absurd (refuse-ne-ok (some (unauthorized user_gone)) none user e)
validate_found-ok (some row) user e =
    let (same, open_account, not_closed) = check_status-ok row user row.status refl e in
    (row, refl, same, open_account, not_closed)

pub authenticate-ok :
    (users : List User) (token : TokenCheck) (user : AuthUser)
    → authenticate token users ≡ ok user
    → IsSignedIn users token user
unfolding authenticate handle_request
authenticate-ok users (invalid_token info) user e = absurd (refuse-ne-ok none info user e)
authenticate-ok users (valid_token payload) user e =
    let (row, found, same, open_account, not_closed) =
      validate_found-ok (find_row User.id payload.sub users) user e in
    record {
      payload = payload;
      row = row;
      signed = refl;
      found = found;
      same = same;
      not_suspended = open_account;
      not_closed = not_closed;
    }

can_activate-ok :
    (tier : KycTier) (user : AuthUser) (b : Bool)
    → can_activate (some tier) (some user) ≡ ok b
    → level tier ≤ level user.kyc_tier
unfolding can_activate
can_activate-ok tier user b e = ground arith

-- A response that does not say that the service returned.
abbrev pub IsDeclined : HttpResponse → Type 0
IsDeclined (success _ _) = ⊥
IsDeclined (stored _ _) = Unit
IsDeclined (failure _) = Unit

module _ (id_text : ℕ → String) (text : Reason → String) {D : Type 0} (tier : KycTier)
    (service : ℕ → D → Exec Db Transfer) (q : HttpRequest D) (s : Server Transfer Db) where
  -- The service ran for the user of the token, who has the tier, and its end is the response.
  pub record Ran (x : HttpResponse × Server Transfer Db) : Type 0 where
    pub user : AuthUser
    pub dto : D
    pub signed_in : IsSignedIn s.app.users q.token user
    pub has_tier : level tier ≤ level user.kyc_tier
    pub body : q.body ≡ accepted dto
    pub response :
        x.0 ≡ respond_result id_text text tier service s.now q (service user.id dto s.app).0
    pub after : x.1.app ≡ (service user.id dto s.app).1

  -- Nothing changed but the table of records.
  abbrev pub IsIdle : HttpResponse × Server Transfer Db → Type 0
  IsIdle x = IsDeclined x.0 × (x.1.app ≡ s.app)

  pub respond-IsDeclined :
      (user : ℕ) (reply : Reply Transfer)
      → IsHeld reply
      → IsDeclined (respond id_text text tier service s.now user q s.app reply)
  respond-IsDeclined user (answered e) h = absurd h
  respond-IsDeclined user (replayed status body) h = tt
  respond-IsDeclined user (rejected e) h = tt

  module _ (user : AuthUser) (signed_in : IsSignedIn s.app.users q.token user)
      (has_tier : level tier ≤ level user.kyc_tier) where
    after_interceptor :
        (body : BodyCheck D)
        → q.body ≡ body
        → (t : List (IdempotencyRecord Transfer))
        → let x : HttpResponse × Server Transfer Db = (
          respond_run id_text text tier service s.now user.id q body s.app,
          record s {
            records = t;
            app = (route_handler id_text text tier service user.id body s.app).1;
          },
        ) in
          IsIdle x ⊎ Ran x
    after_interceptor (refused l) same t = inl (tt, refl)
    after_interceptor (accepted dto) same t = inr (record {
      user = user;
      dto = dto;
      signed_in = signed_in;
      has_tier = has_tier;
      body = same;
      response = refl;
      after = refl;
    })

    route_for-inv : let x = route_for id_text text tier service user.id q s in IsIdle x ⊎ Ran x
    unfolding route_for
    route_for-inv =
        elim (intercept-Ends (route_handler id_text text tier service user.id q.body)
          (as_request id_text text tier service user.id q) s) [
            | held waits same ↦ inl (
              respond-IsDeclined user.id
                  (intercept (route_handler id_text text tier service user.id q.body) true
                    (as_request id_text text tier service user.id q) s).0
                  waits,
              ap Server.app same,
            )
            | ran t reply after ↦ rw (reply, after) (after_interceptor q.body refl t)
          ]

  after_guards-inv :
      (user : AuthUser)
      → IsSignedIn s.app.users q.token user
      → (r : Result Bool) → can_activate (some tier) (some user) ≡ r
      → let x = after_guards id_text text tier service q user r s in IsIdle x ⊎ Ran x
  after_guards-inv user signed_in (ok b) passes =
      route_for-inv user signed_in (can_activate-ok tier user b passes)
  after_guards-inv user signed_in (err e) fails = inl (tt, refl)

  after_token-inv :
      (r : Result AuthUser)
      → authenticate q.token s.app.users ≡ r
      → let x = after_token id_text text tier service q r s in IsIdle x ⊎ Ran x
  after_token-inv (ok user) known =
      after_guards-inv user (authenticate-ok s.app.users q.token user known)
        (can_activate (some tier) (some user)) refl
  after_token-inv (err e) unknown = inl (tt, refl)

  pub route-inv : let x = route id_text text tier service q s in IsIdle x ⊎ Ran x
  unfolding route
  route-inv = after_token-inv (authenticate q.token s.app.users) refl
