-- ===== src/Health.antt =====
-- src/modules/health/health.module.ts, and what the filter makes of a check that fails.
use Prim.Native.String.{String}
use transact_go.Http.Filter.{
  ErrorBody, ErrorResponse, RequestInfo, catch, given_text, http_exception, http_problem,
  object_body, one_message, problem_of, status_to_code,
}
use transact_go.Prelude.{Option, inl, inr, none, refl, some, ℕ, ◌≡◌, ◌⊎◌}

pub record QueueDepth : Type 0 where
  pub waiting : ℕ
  pub active : ℕ
  pub failed : ℕ

-- A check that went through has its time, and one that threw has a detail.
pub data CheckResult (Q : Type 0) : Type 0 where
  check_ok : (latency_ms : ℕ) → Q → CheckResult Q
  check_error : (detail : String) → CheckResult Q

pub data HealthStatus : Type 0 where
  healthy degraded : HealthStatus

pub record HealthReport : Type 0 where
  pub status : HealthStatus
  pub timestamp : ℕ
  pub uptime : ℕ
  pub database : CheckResult (Unit {0})
  pub redis : CheckResult QueueDepth

-- A call is `none` when it throws.
abbrev pub check_result : {Q : Type 0} → String → Option (ℕ × Q) → CheckResult Q
check_result detail none = check_error detail
check_result detail (some (latency, q)) = check_ok latency q

abbrev pub overall : {P Q : Type 0} → Option P → Option Q → HealthStatus
overall (some _) (some _) = healthy
overall _ _ = degraded

-- `HealthService.check`, for what the query and the calls of the queue gave.
unfoldable pub check :
    (timestamp uptime : ℕ) → Option (ℕ × Unit {0}) → Option (ℕ × QueueDepth) → HealthReport
check timestamp uptime database redis = record {
  status = overall database redis;
  timestamp = timestamp;
  uptime = uptime;
  database = check_result "Cannot reach database" database;
  redis = check_result "Cannot reach Redis" redis;
}

-- The report, or the response of the filter to the `ServiceUnavailableException` that holds it: the
-- report has no field `message` and no field `error`.
abbrev pub health_body : ErrorBody
health_body = object_body (record { message = none; error = none })

abbrev pub respond_health : ℕ → RequestInfo → HealthReport → HealthReport ⊎ ErrorResponse
respond_health now request report = elim report.status [
  | healthy ↦ inl report
  | degraded ↦ inr (catch now request (http_exception 503 health_body)).0
]

-- `HealthController.check`
unfoldable pub get_health :
    (timestamp uptime : ℕ)
    → RequestInfo
    → Option (ℕ × Unit {0})
    → Option (ℕ × QueueDepth)
    → HealthReport ⊎ ErrorResponse
unfolding check catch
get_health timestamp uptime request database redis =
    respond_health timestamp request (check timestamp uptime database redis)

-- The error that a failing check is answered with.
abbrev pub unavailable : ℕ → RequestInfo → ErrorResponse
unavailable now request = record {
  status_code = 503;
  timestamp = now;
  path = request.url;
  method = request.method;
  error = record {
    status = 503;
    code = "HTTP_ERROR";
    message = one_message "An unexpected error occurred";
    details = none;
  };
  request_id = given_text request.request_id;
}

-- The health route answers with its report exactly when both checks went through. When one failed,
-- or both, the answer is one and the same error 503: the filter drops the report, so that nothing
-- in the response says which check it was.
pub get_health-cases :
    (timestamp uptime : ℕ) (request : RequestInfo) (database : Option (ℕ × Unit {0}))
    (redis : Option (ℕ × QueueDepth))
    → ((d : ℕ × Unit {0}) × (r : ℕ × QueueDepth) × (database ≡ some d)
        × (redis ≡ some r)
        × (get_health timestamp uptime request database redis
            ≡ inl (check timestamp uptime database redis)))
      ⊎ (((database ≡ none) ⊎ (redis ≡ none))
          × (get_health timestamp uptime request database redis
              ≡ inr (unavailable timestamp request)))
unfolding get_health http_problem problem_of status_to_code
get_health-cases timestamp uptime request none redis = inr (inl refl, refl)
get_health-cases timestamp uptime request (some d) none = inr (inr refl, refl)
get_health-cases timestamp uptime request (some d) (some r) = inl (d, r, refl, refl, refl)
