-- ===== src/Idempotency/Interceptor.antt =====
-- src/common/interceptors/idempotency.interceptor.ts and
-- src/modules/transfers/entities/idempotency-record.entity.ts. The handler of the request is an
-- argument. The copy of the request's body is not read and left out, and the update of the record,
-- which runs after the handler, is one step with it. A header has one byte to a character, so that
-- `length` counts characters.
use Prim.Native.String.{count, ◌++◌}
use transact_go.Outcome.{
  Exception, bad_request, conflict, key_missing, key_too_short, request_in_progress,
}
use transact_go.Payments.Service.{or_text}
use transact_go.Prelude.{
  Bool, List, Option, String, [], false, find, if◌then◌else◌, is_some, ltb, none, not, some, str_eq,
  true, ℕ, ◌&&◌, ◌∷◌,
}
use transact_go.Prelude.Paging.{or_default}

pub data RecordStatus : Type 0 where
  in_flight completed failed : RecordStatus

abbrev pub is_in_flight : RecordStatus → Bool
is_in_flight in_flight = true
is_in_flight _ = false

-- What is stored of an answer: the body of a response, or the message of an error.
pub data StoredBody (B : Type 0) : Type 0 where
  no_body : StoredBody B
  response_of : B → StoredBody B
  message_of : String → StoredBody B

pub record IdempotencyRecord (B : Type 0) : Type 0 where
  pub composite_key : String
  pub endpoint : String
  pub user_id : Option String
  pub idempotency_key : String
  pub status : RecordStatus
  pub response_status : Option ℕ
  pub response_body : StoredBody B
  pub completed_at : Option ℕ
  pub created_at : ℕ

-- The parts of a request that the interceptor reads; `key` is the header `x-idempotency-key`.
pub record Request : Type 0 where
  pub user : Option String
  pub key : Option String
  pub method : String
  pub path : String

abbrev pub composite_key_of : Request → String → String
composite_key_of r key = or_text r.user "undefined" ++ (":" ++ key)

abbrev pub endpoint_of : Request → String
endpoint_of r = r.method ++ (":" ++ r.path)

-- How the handler ends: the status and the body of its response, or an error.
pub data HandlerEnd (B : Type 0) : Type 0 where
  returned : ℕ → B → HandlerEnd B
  threw : Option ℕ → String → HandlerEnd B

-- What the client gets.
pub data Reply (B : Type 0) : Type 0 where
  answered : HandlerEnd B → Reply B
  replayed : Option ℕ → StoredBody B → Reply B
  rejected : Exception → Reply B

-- Whether a request goes on to its handler.
pub data Step (B : Type 0) : Type 0 where
  stop : Reply B → Step B
  go_on : Step B

pub record Server (B S : Type 0) : Type 0 where
  pub records : List (IdempotencyRecord B)
  pub app : S
  pub now : ℕ

module _ {B : Type 0} where
  abbrev pub matches : String → String → IdempotencyRecord B → Bool
  matches k e r = str_eq r.composite_key k && str_eq r.endpoint e

  abbrev pub find_record :
      String → String → List (IdempotencyRecord B) → Option (IdempotencyRecord B)
  find_record k e t = find (matches k e) t

  abbrev pub update_record :
      String
      → String
      → (IdempotencyRecord B → IdempotencyRecord B)
      → List (IdempotencyRecord B)
      → List (IdempotencyRecord B)
  update_record k e f [] = []
  update_record k e f (r ∷ t) = (if matches k e r then f r else r) ∷ update_record k e f t

  abbrev pub has_key : String → List (IdempotencyRecord B) → Bool
  has_key k t = is_some (find (λ r. str_eq r.composite_key k) t)

  -- `save`: the unique index on `compositeKey` refuses a key that is there.
  unfoldable pub claim :
      IdempotencyRecord B → List (IdempotencyRecord B) → Option (List (IdempotencyRecord B))
  claim row t = if has_key row.composite_key t then none else some (row ∷ t)

  abbrev pub new_record : Request → String → ℕ → IdempotencyRecord B
  new_record r key now = record {
    composite_key = composite_key_of r key;
    endpoint = endpoint_of r;
    user_id = r.user;
    idempotency_key = key;
    status = in_flight;
    response_status = none;
    response_body = no_body;
    completed_at = none;
    created_at = now;
  }

  -- The two updates of step 3.
  abbrev pub finish_record : HandlerEnd B → ℕ → IdempotencyRecord B → IdempotencyRecord B
  finish_record (returned status body) now r = record r {
    status = completed;
    response_status = some status;
    response_body = response_of body;
    completed_at = some now;
  }
  finish_record (threw status message) now r = record r {
    status = failed;
    response_status = some (or_default status 500);
    response_body = message_of message;
    completed_at = some now;
  }

  unfoldable pub answer_existing : IdempotencyRecord B → Reply B
  answer_existing r =
      if is_in_flight r.status
      then rejected (conflict request_in_progress)
      else replayed r.response_status r.response_body

  -- Step 2.
  abbrev pub after_claim :
      {S : Type 0} → Server B S → Option (List (IdempotencyRecord B)) → Step B × Server B S
  after_claim s none = (stop (rejected (conflict request_in_progress)), s)
  after_claim s (some t) = (go_on, record s { records = t })

  unfoldable pub take_key : {S : Type 0} → Request → String → Server B S → Step B × Server B S
  unfolding claim
  take_key r key s = after_claim s (claim (new_record r key s.now) s.records)

  module _ {S : Type 0} (handler : S → HandlerEnd B × S) where
    -- Step 3.
    unfoldable pub execute : String → String → Server B S → Reply B × Server B S
    execute k e s =
        let (end, app) = handler s.app in
        (
          answered end,
          record s { records = update_record k e (finish_record end s.now) s.records; app = app },
        )

    -- Behind step 2.
    abbrev pub finish_step : String → String → Step B × Server B S → Reply B × Server B S
    finish_step k e (stop reply, s) = (reply, s)
    finish_step k e (go_on, s) = execute k e s

    -- Step 1.
    abbrev pub after_lookup :
        Request → String → Server B S → Option (IdempotencyRecord B) → Reply B × Server B S
    after_lookup r key s (some existing) = (answer_existing existing, s)
    after_lookup r key s none =
        finish_step (composite_key_of r key) (endpoint_of r) (take_key r key s)

    unfoldable pub intercept_key : Request → String → Server B S → Reply B × Server B S
    unfolding answer_existing take_key execute
    intercept_key r key s =
        if str_eq key ""
        then (rejected (bad_request key_missing), s)
        else if ltb (count key) 16
        then (rejected (bad_request key_too_short), s)
        else after_lookup r key s (find_record (composite_key_of r key) (endpoint_of r) s.records)

    unfoldable pub intercept : Bool → Request → Server B S → Reply B × Server B S
    unfolding intercept_key
    intercept is_idempotent r s =
        if not is_idempotent
        then (let (end, app) = handler s.app in (answered end, record s { app = app }))
        else (elim r.key [
          | none ↦ (rejected (bad_request key_missing), s)
          | some key ↦ intercept_key r key s
        ])
