-- ===== src/Tests/Idempotency.antt =====
-- The theorems on repeated requests, applied to a counter that a handler raises.
use transact_go.Idempotency.Interceptor.{Request, returned, threw}
use transact_go.Idempotency.Once.{Action, act_all, executions_bound, finishes, takes}
use transact_go.Prelude.{List, String, [], none, some, ℕ, ◌∷◌, ◌≤◌}

abbrev payment_request : Request
payment_request = record {
  user = some "7";
  key = some "0123456789abcdef";
  method = "POST";
  path = "/transfers";
}

abbrev key_text : String
key_text = "0123456789abcdef"

-- Two requests take the key one after the other, a third comes between their ends.
abbrev overlapping : List (Action ℕ)
overlapping =
    takes 1000 payment_request key_text
    ∷ takes 1001 payment_request key_text
    ∷ finishes 1002 1 (returned 201 6)
    ∷ takes 1003 payment_request key_text
    ∷ finishes 1004 0 (threw none "late")
    ∷ []

executions_bound_example :
    (act_all "7:0123456789abcdef" overlapping
      (record { server = record { records = []; app = 0; now = 1000 }; waiting = [] })).server.app
    ≤ 1
executions_bound_example = executions_bound "7:0123456789abcdef" overlapping [] 1000
