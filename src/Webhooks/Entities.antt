-- ===== src/Webhooks/Entities.antt =====
-- src/modules/webhooks/entities/webhook-event.entity.ts, and the payloads of the two providers with
-- the fields that the code reads. A field that a payload lacks is `none`.
use transact_go.Payments.Service.{Provider}
use transact_go.Prelude.{Bool, Option, String, false, if◌then◌else◌, none, some, str_eq, ℕ}

pub data WebhookStatus : Type 0 where
  event_pending event_processing event_completed event_failed : WebhookStatus

-- `event`, `event_id`, `data.id`, `data.tx_ref` and `data.status` of a Flutterwave event.
pub record FlutterwavePayload : Type 0 where
  pub event : Option String
  pub event_id : Option String
  pub data_id : Option String
  pub data_tx_ref : Option String
  pub data_status : Option String

-- `id`, `type`, `data.object.id`, `data.object.metadata.reference` and `data.object.status` of a
-- Stripe event.
pub record StripePayload : Type 0 where
  pub id : Option String
  pub type : Option String
  pub object_id : Option String
  pub object_reference : Option String
  pub object_status : Option String

pub data Payload : Type 0 where
  flutterwave_payload : FlutterwavePayload → Payload
  stripe_payload : StripePayload → Payload

pub record WebhookEvent : Type 0 where
  pub id : ℕ
  pub provider : Provider
  pub provider_event_id : Option String
  pub event_type : String
  pub status : WebhookStatus
  pub payload : Payload
  pub attempts : ℕ
  pub error_message : Option String
  pub processed_at : Option ℕ

-- The job of the queue `webhooks`.
pub record WebhookJob : Type 0 where
  pub webhook_event_id : ℕ
  pub provider : Provider
  pub payload : Payload

-- `a || b` on texts that may be missing: an empty text counts as missing.
abbrev pub or_else : Option String → Option String → Option String
or_else none o = o
or_else (some s) o = if str_eq s "" then o else some s

abbrev pub is_text : String → Option String → Bool
is_text s none = false
is_text s (some t) = str_eq t s
