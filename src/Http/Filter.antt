-- ===== src/Http/Filter.antt =====
-- src/common/filters/http-exception.filter.ts: the response for an exception, and what is logged.
-- A body of an `HttpException` is a text, or an object whose fields `message` and `error` are read.
use transact_go.Http.UniqueDetail.{parse_unique_constraint_message}
use transact_go.Prelude.{
  Bool, List, Option, String, [], arith, false, if◌then◌else◌, leb, none, refl, some, str_eq, ℕ,
  ◌++◌, ◌==◌, ◌||◌, ◌∷◌, ◌≡◌,
}

pub data ErrorMessage : Type 0 where
  one_message : String → ErrorMessage
  messages : List String → ErrorMessage

pub record ErrorObject : Type 0 where
  pub message : Option ErrorMessage
  pub error : Option String

pub data ErrorBody : Type 0 where
  text_body : String → ErrorBody
  object_body : ErrorObject → ErrorBody

-- `QueryFailedError` with the code and the detail of Postgres, any other `Error`, any other value.
pub data Thrown : Type 0 where
  http_exception : ℕ → ErrorBody → Thrown
  query_failed : (pg_code : String) (detail : Option String) (message : String) → Thrown
  other_error : String → Thrown
  other_value : Thrown

pub data ErrorLog : Type 0 where
  unhandled_query : (pg_code message : String) → ErrorLog
  error_message : String → ErrorLog
  server_error : (method url : String) (status : ℕ) → ErrorLog

-- The parts of the request that the filter reads.
pub record RequestInfo : Type 0 where
  pub method : String
  pub url : String
  pub request_id : Option String

pub record Problem : Type 0 where
  pub status : ℕ
  pub code : String
  pub message : ErrorMessage
  pub details : Option (List String)

pub record ErrorResponse : Type 0 where
  pub status_code : ℕ
  pub timestamp : ℕ
  pub path : String
  pub method : String
  pub error : Problem
  pub request_id : Option String

unfoldable pub status_to_code : ℕ → String
status_to_code status =
    if status == 400
    then "BAD_REQUEST"
    else if status == 401
    then "UNAUTHORIZED"
    else if status == 403
    then "FORBIDDEN"
    else if status == 404
    then "NOT_FOUND"
    else if status == 409
    then "CONFLICT"
    else if status == 422
    then "UNPROCESSABLE"
    else if status == 429
    then "TOO_MANY_REQUESTS"
    else if status == 500
    then "INTERNAL_ERROR"
    else "HTTP_ERROR"

abbrev pub unexpected : String
unexpected = "An unexpected error occurred"

-- `res.message || message`
abbrev pub message_or : Option ErrorMessage → ErrorMessage
message_or none = one_message unexpected
message_or (some (one_message s)) = one_message (if str_eq s "" then unexpected else s)
message_or (some (messages l)) = messages l

abbrev pub details_of : Option ErrorMessage → Option (List String)
details_of (some (messages l)) = some l
details_of _ = none

-- `a || b`, for a text `b` that is not empty.
abbrev pub text_or : Option String → String → String
text_or none d = d
text_or (some s) d = if str_eq s "" then d else s

unfoldable pub http_problem : ℕ → ErrorBody → Problem
unfolding status_to_code
http_problem status (text_body s) = record {
  status = status;
  code = "INTERNAL_ERROR";
  message = one_message s;
  details = none;
}
http_problem status (object_body res) = record {
  status = status;
  code = text_or res.error (status_to_code status);
  message = message_or res.message;
  details = details_of res.message;
}

abbrev pub default_problem : Problem
default_problem = record {
  status = 500;
  code = "INTERNAL_ERROR";
  message = one_message unexpected;
  details = none;
}

abbrev pub query_code : String → Bool
query_code pg_code = str_eq pg_code "23505" || (str_eq pg_code "23503" || str_eq pg_code "23514")

unfoldable pub query_problem : String → Option String → Problem
unfolding parse_unique_constraint_message
query_problem pg_code detail =
    if str_eq pg_code "23505"
    then (record {
      status = 409;
      code = "DUPLICATE_ENTRY";
      message = one_message (parse_unique_constraint_message detail);
      details = none;
    })
    else if str_eq pg_code "23503"
    then (record {
      status = 400;
      code = "INVALID_REFERENCE";
      message = one_message "Referenced resource does not exist";
      details = none;
    })
    else if str_eq pg_code "23514"
    then (record {
      status = 400;
      code = "CONSTRAINT_VIOLATION";
      message = one_message "Data violates a database constraint";
      details = none;
    })
    else default_problem

unfoldable pub problem_of : Thrown → Problem
unfolding http_problem query_problem
problem_of (http_exception status body) = http_problem status body
problem_of (query_failed pg_code detail message) = query_problem pg_code detail
problem_of (other_error message) = default_problem
problem_of other_value = default_problem

abbrev pub logs_of : Thrown → List ErrorLog
logs_of (query_failed pg_code detail message) =
    if query_code pg_code then [] else unhandled_query pg_code message ∷ []
logs_of (other_error message) = error_message message ∷ []
logs_of _ = []

abbrev pub given_text : Option String → Option String
given_text none = none
given_text (some s) = if str_eq s "" then none else some s

unfoldable pub catch : (now : ℕ) → RequestInfo → Thrown → ErrorResponse × List ErrorLog
unfolding problem_of
catch now request exception =
    let problem = problem_of exception in
    (
      record {
        status_code = problem.status;
        timestamp = now;
        path = request.url;
        method = request.method;
        error = problem;
        request_id = given_text request.request_id;
      },
      logs_of exception
          ++ (if leb 500 problem.status
              then server_error request.method request.url problem.status ∷ []
              else []),
    )

-- An error that is no `HttpException` and no error of the database shows nothing of itself, and one
-- of the database nothing but the detail of a duplicate: two of them with the same code and detail
-- give the same response, and without the code of a duplicate the detail does not matter either.
pub catch_conceals :
    (now : ℕ) (request : RequestInfo) (pg_code : String) (d e : Option String) (m n : String)
    → str_eq pg_code "23505" ≡ false
    → ((catch now request (other_error m)).0 ≡ (catch now request (other_error n)).0)
      × ((catch now request (query_failed pg_code d m)).0
          ≡ (catch now request (query_failed pg_code e n)).0)
unfolding catch problem_of query_problem
catch_conceals now request pg_code d e m n other = (refl, ground arith)
