-- ===== src/Http/Transfers.antt =====
-- `POST /transfers/internal`, `POST /payments/deposit` and `POST /payments/withdraw`
-- (src/modules/transfers/transfers.controller.ts and src/modules/payments/payments.controller.ts)
-- with what stands in front of them: the guard of tokens, the guard of tiers, the interceptor of
-- repeated requests, and the filter behind them. The order is that of Nest: guards, interceptor,
-- validation, handler, filter.
--
-- What the validation pipe makes of a body is an argument, an accepted DTO or its messages;
-- `id_text` is the text of a user's key, and `text` the message of an exception. Requests that the
-- throttler refuses do not come here.
use transact_go.Auth.Guards.{TokenCheck, authenticate, can_activate}
use transact_go.Auth.Service.{AuthUser}
use transact_go.Fraud.Gate.{FraudGate}
use transact_go.Http.Filter.{
  ErrorResponse, RequestInfo, Thrown, catch, http_exception, messages, object_body, one_message,
  other_error, query_failed,
}
use transact_go.Idempotency.Interceptor.{
  HandlerEnd, Reply, Request, Server, StoredBody, answered, intercept, rejected, replayed, returned,
  threw,
}
use transact_go.Outcome.{
  Exception, Exec, Reason, Result, bad_request, column_too_long, conflict, err, forbidden, internal,
  not_found, ok, unauthorized,
}
use transact_go.Payments.Service.{
  InitiateDepositDto, InitiateWithdrawalDto, initiate_deposit, initiate_withdrawal,
}
use transact_go.Prelude.{Bool, List, Option, String, none, some, true, ℕ}
use transact_go.Transfers.Entities.{Transfer}
use transact_go.Transfers.Service.{FeeSchedule, InternalTransferDto, internal_transfer}
use transact_go.Transfers.Store.{Db}
use transact_go.Users.Entities.{KycTier, tier_1, tier_2}

pub data BodyCheck (D : Type 0) : Type 0 where
  accepted : D → BodyCheck D
  refused : List String → BodyCheck D

pub record HttpRequest (D : Type 0) : Type 0 where
  pub token : TokenCheck
  pub key : Option String
  pub path : String
  pub request_id : Option String
  pub body : BodyCheck D

-- A response with its status and body, the stored response of a repetition, or an error.
pub data HttpResponse : Type 0 where
  success : ℕ → Transfer → HttpResponse
  stored : Option ℕ → StoredBody Transfer → HttpResponse
  failure : ErrorResponse → HttpResponse

module _ (id_text : ℕ → String) (text : Reason → String) where
  -- The exceptions of `@nestjs/common` have a body with the message and the name of the status.
  abbrev pub thrown_of : Exception → Thrown
  thrown_of (bad_request r) =
      http_exception 400
        (object_body (record { message = some (one_message (text r)); error = some "Bad Request" }))
  thrown_of (forbidden r) =
      http_exception 403
        (object_body (record { message = some (one_message (text r)); error = some "Forbidden" }))
  thrown_of (not_found r) =
      http_exception 404
        (object_body (record { message = some (one_message (text r)); error = some "Not Found" }))
  thrown_of (conflict r) =
      http_exception 409
        (object_body (record { message = some (one_message (text r)); error = some "Conflict" }))
  thrown_of (unauthorized r) =
      http_exception 401 (
        object_body (record { message = some (one_message (text r)); error = some "Unauthorized" }))
  thrown_of (internal column_too_long) = query_failed "22001" none (text column_too_long)
  thrown_of (internal r) = other_error (text r)

  -- `error.status` and `error.message`
  abbrev pub threw_exception : Exception → HandlerEnd Transfer
  threw_exception (bad_request r) = threw (some 400) (text r)
  threw_exception (forbidden r) = threw (some 403) (text r)
  threw_exception (not_found r) = threw (some 404) (text r)
  threw_exception (conflict r) = threw (some 409) (text r)
  threw_exception (unauthorized r) = threw (some 401) (text r)
  threw_exception (internal r) = threw none (text r)

  abbrev pub request_info : {D : Type 0} → HttpRequest D → RequestInfo
  request_info q = record { method = "POST"; url = q.path; request_id = q.request_id }

  abbrev pub fail_with : {D : Type 0} → ℕ → HttpRequest D → Thrown → HttpResponse
  fail_with now q e = failure (catch now (request_info q) e).0

  abbrev pub refused_body : List String → Thrown
  refused_body l =
      http_exception 400
        (object_body (record { message = some (messages l); error = some "Bad Request" }))

  module _ {D : Type 0} (tier : KycTier) (service : ℕ → D → Exec Db Transfer) where
    abbrev pub end_of : Result Transfer → HandlerEnd Transfer
    end_of (ok t) = returned 201 t
    end_of (err e) = threw_exception e

    -- The pipe and the method of the controller, as the interceptor sees them.
    abbrev pub route_handler : ℕ → BodyCheck D → Db → HandlerEnd Transfer × Db
    route_handler user (refused l) db = (threw (some 400) "Bad Request Exception", db)
    route_handler user (accepted dto) db = let (r, db') = service user dto db in (end_of r, db')

    abbrev pub respond_result : ℕ → HttpRequest D → Result Transfer → HttpResponse
    respond_result now q (ok t) = success 201 t
    respond_result now q (err e) = fail_with now q (thrown_of e)

    -- The response to a request whose handler has run: the interceptor passes its end on.
    abbrev pub respond_run : ℕ → ℕ → HttpRequest D → BodyCheck D → Db → HttpResponse
    respond_run now user q (refused l) db = fail_with now q (refused_body l)
    respond_run now user q (accepted dto) db = respond_result now q (service user dto db).0

    abbrev pub respond : ℕ → ℕ → HttpRequest D → Db → Reply Transfer → HttpResponse
    respond now user q db (answered _) = respond_run now user q q.body db
    respond now user q db (replayed status body) = stored status body
    respond now user q db (rejected e) = fail_with now q (thrown_of e)

    abbrev pub as_request : ℕ → HttpRequest D → Request
    as_request user q = record {
      user = some (id_text user);
      key = q.key;
      method = "POST";
      path = q.path;
    }

    unfoldable pub route_for :
        ℕ → HttpRequest D → Server Transfer Db → HttpResponse × Server Transfer Db
    route_for user q s =
        let (reply, s') = intercept (route_handler user q.body) true (as_request user q) s in
        (respond s.now user q s.app reply, s')

    abbrev pub after_guards :
        HttpRequest D
        → AuthUser
        → Result Bool
        → Server Transfer Db
        → HttpResponse × Server Transfer Db
    after_guards q user (ok _) s = route_for user.id q s
    after_guards q user (err e) s = (fail_with s.now q (thrown_of e), s)

    abbrev pub after_token :
        HttpRequest D → Result AuthUser → Server Transfer Db → HttpResponse × Server Transfer Db
    after_token q (ok user) s = after_guards q user (can_activate (some tier) (some user)) s
    after_token q (err e) s = (fail_with s.now q (thrown_of e), s)

    unfoldable pub route : HttpRequest D → Server Transfer Db → HttpResponse × Server Transfer Db
    route q s = after_token q (authenticate q.token s.app.users) s

  unfoldable pub post_internal_transfer :
      FeeSchedule
      → (ℕ → ℕ)
      → HttpRequest InternalTransferDto
      → Server Transfer Db
      → HttpResponse × Server Transfer Db
  unfolding route
  post_internal_transfer fees start_of_day = route tier_1 (internal_transfer fees start_of_day)

  unfoldable pub post_deposit :
      FeeSchedule
      → FraudGate
      → Bool
      → HttpRequest InitiateDepositDto
      → Server Transfer Db
      → HttpResponse × Server Transfer Db
  unfolding route
  post_deposit fees gate queue_up = route tier_1 (initiate_deposit fees gate queue_up)

  unfoldable pub post_withdraw :
      FeeSchedule
      → FraudGate
      → Bool
      → HttpRequest InitiateWithdrawalDto
      → Server Transfer Db
      → HttpResponse × Server Transfer Db
  unfolding route
  post_withdraw fees gate queue_up = route tier_2 (initiate_withdrawal fees gate queue_up)
