-- ===== src/Webhooks/Controller.antt =====
-- src/modules/webhooks/webhooks.controller.ts. The signature check of a provider is an argument,
-- its answer for the header and the raw body, and so is the time as a text.
use transact_go.Outcome.{
  Exec, err, forbidden, internal, ok, pure, queue_unavailable, signature_invalid,
  signature_unverifiable, throw_if, ◌>>=◌, ◌>>◌,
}
use transact_go.Payments.Service.{Provider, flutterwave, or_text, stripe}
use transact_go.Prelude.{
  Bool, List, Option, String, find, if◌then◌else◌, is_some, none, not, some, true, ℕ, ◌+◌, ◌∷◌,
}
use transact_go.Transfers.Store.{Db}
use transact_go.Webhooks.Entities.{
  FlutterwavePayload, Payload, StripePayload, WebhookEvent, WebhookJob, event_pending,
  flutterwave_payload, is_text, or_else, stripe_payload,
}

pub record WebhookStore : Type 0 where
  pub db : Db
  pub events : List WebhookEvent
  pub next_event_id : ℕ
  pub webhook_jobs : List WebhookJob

pub record Receipt : Type 0 where
  pub received : Bool
  pub event_id : Option ℕ

pub record IncomingEvent : Type 0 where
  pub provider : Provider
  pub provider_event_id : Option String
  pub event_type : String
  pub payload : Payload

-- `where: { providerEventId }`. TypeORM drops a condition whose value is undefined, so that a
-- missing identifier finds any row.
abbrev pub same_event : Option String → WebhookEvent → Bool
same_event none e = true
same_event (some s) e = is_text s e.provider_event_id

abbrev pub find_event : Option String → WebhookStore → Option WebhookEvent
find_event id s = find (same_event id) s.events

abbrev pub new_event : ℕ → IncomingEvent → WebhookEvent
new_event id d = record {
  id = id;
  provider = d.provider;
  provider_event_id = d.provider_event_id;
  event_type = d.event_type;
  status = event_pending;
  payload = d.payload;
  attempts = 0;
  error_message = none;
  processed_at = none;
}

abbrev pub add_webhook_job : Bool → WebhookJob → Exec WebhookStore (Unit {0})
add_webhook_job queue_up job s =
    if queue_up
    then (ok tt, record s { webhook_jobs = job ∷ s.webhook_jobs })
    else (err (internal queue_unavailable), s)

abbrev pub store_event : IncomingEvent → Exec WebhookStore WebhookEvent
store_event d s =
    let row : WebhookEvent = new_event s.next_event_id d in
    (ok row, record s { events = row ∷ s.events; next_event_id = s.next_event_id + 1 })

unfoldable pub queue_event : Bool → IncomingEvent → Exec WebhookStore Receipt
queue_event queue_up d = do
  row ← store_event d
  add_webhook_job queue_up
      (record { webhook_event_id = row.id; provider = d.provider; payload = d.payload })
  pure (record { received = true; event_id = some row.id })

-- Steps 4 and 5, for an event that is not known. `raced` says that another request saved the same
-- event since the lookup, so that the unique index refuses the row.
unfoldable pub accept_event : Bool → Bool → IncomingEvent → Exec WebhookStore Receipt
accept_event queue_up raced d s =
    if raced
    then (ok (record { received = true; event_id = none }), s)
    else queue_event queue_up d s

unfoldable pub process_webhook_event : Bool → Bool → IncomingEvent → Exec WebhookStore Receipt
unfolding accept_event
process_webhook_event queue_up raced d s =
    if is_some (find_event d.provider_event_id s)
    then (ok (record { received = true; event_id = none }), s)
    else accept_event queue_up raced d s

-- `parseWebhookEvent` of the providers, as far as the controller uses it.
abbrev pub flutterwave_event_type : FlutterwavePayload → String
flutterwave_event_type p = or_text (or_else p.event none) "charge.completed"

abbrev pub stripe_event_type : StripePayload → String
stripe_event_type p = or_text (or_else p.type none) "payment_intent.succeeded"

-- `raw_body` says whether the request has one.
unfoldable pub handle_flutterwave :
    Bool
    → Bool
    → (raw_body is_valid : Bool) (date_now : String) → FlutterwavePayload
    → Exec WebhookStore Receipt
unfolding process_webhook_event
handle_flutterwave queue_up raced raw_body is_valid date_now p = do
  throw_if (not raw_body) (forbidden signature_unverifiable)
  throw_if (not is_valid) (forbidden signature_invalid)
  process_webhook_event queue_up raced (record {
    provider = flutterwave;
    provider_event_id = or_else p.data_id (or_else p.event_id (some date_now));
    event_type = flutterwave_event_type p;
    payload = flutterwave_payload p;
  })

unfoldable pub handle_stripe :
    Bool → Bool → (raw_body is_valid : Bool) → StripePayload → Exec WebhookStore Receipt
unfolding process_webhook_event
handle_stripe queue_up raced raw_body is_valid p = do
  throw_if (not raw_body) (forbidden signature_unverifiable)
  throw_if (not is_valid) (forbidden signature_invalid)
  process_webhook_event queue_up raced (record {
    provider = stripe;
    provider_event_id = p.id;
    event_type = stripe_event_type p;
    payload = stripe_payload p;
  })
