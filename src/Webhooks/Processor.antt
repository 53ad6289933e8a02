-- ===== src/Webhooks/Processor.antt =====
-- src/modules/webhooks/webhooks.processor.ts: the jobs of the queue `webhooks`. `id_text` writes the
-- key of a transfer as the text that a provider gives back.
use transact_go.Outcome.{Exec, gets, ok, ◌>>=◌, ◌>>◌}
use transact_go.Payments.Processor.{failed_row}
use transact_go.Payments.Service.{complete_deposit, or_text}
use transact_go.Prelude.{
  Bool, Option, String, find, if◌then◌else◌, leb, none, some, str_eq, true, ℕ, ◌&&◌, ◌+◌, ◌||◌,
}
use transact_go.Prelude.Rows.{update_row}
use transact_go.Transfers.Entities.{Transfer, completed, is_deposit, is_processing, is_terminal}
use transact_go.Transfers.Store.{Db, update_transfer}
use transact_go.Webhooks.Controller.{WebhookStore}
use transact_go.Webhooks.Entities.{
  FlutterwavePayload, Payload, StripePayload, WebhookEvent, WebhookJob, event_completed,
  event_failed, event_processing, flutterwave_payload, is_text, or_else, stripe_payload,
}

pub record ParsedEvent : Type 0 where
  pub reference : Option String
  pub status : Option String
  pub type : String

-- `status === 'successful' ? 'success' : status`
abbrev pub flw_status : Option String → Option String
flw_status s = if is_text "successful" s then some "success" else s

unfoldable pub parse_flw_event : FlutterwavePayload → ParsedEvent
parse_flw_event p = record {
  type = or_text (or_else p.event none) "charge.completed";
  reference = or_else p.data_tx_ref p.data_id;
  status = flw_status p.data_status;
}

unfoldable pub parse_stripe_event : StripePayload → ParsedEvent
parse_stripe_event p = record {
  type = or_text (or_else p.type none) "payment_intent.succeeded";
  reference = or_else p.object_reference p.object_id;
  status =
      if is_text "succeeded" p.object_status || is_text "paid" p.object_status
      then some "success"
      else some "failed";
}

abbrev pub on_db : {A : Type 0} → Exec Db A → Exec WebhookStore A
on_db m s = let (r, d) = m s.db in (r, record s { db = d })

abbrev pub update_event : ℕ → (WebhookEvent → WebhookEvent) → Exec WebhookStore (Unit {0})
update_event k f s = (ok tt, record s { events = update_row WebhookEvent.id k f s.events })

-- `where: [{ id: reference }, { providerReference: reference }]`; see `same_event` on a missing
-- reference. Of several rows that fit, the newest is taken.
abbrev pub is_referenced : (ℕ → String) → Option String → Transfer → Bool
is_referenced id_text none t = true
is_referenced id_text (some r) t = str_eq (id_text t.id) r || is_text r t.provider_reference

abbrev pub paid_row : ℕ → Transfer → Transfer
paid_row now t = record t { status = completed; completed_at = some now }

abbrev pub finish : ℕ → Option ℕ → Exec WebhookStore (Unit {0})
finish k at = update_event k (λ e. record e { status = event_completed; processed_at = at })

-- `update(webhookEventId, { status: COMPLETED })`
abbrev pub close_event : ℕ → Exec WebhookStore (Unit {0})
close_event k = update_event k (λ e. record e { status = event_completed })

module _ (queue_up : Bool) where
  abbrev pub apply_success : Transfer → ParsedEvent → Exec Db (Unit {0})
  apply_success t parsed db =
      if is_deposit t.type
      then complete_deposit queue_up t.id (or_text parsed.reference "") db
      else update_transfer t.id (paid_row db.bank.now) db

  unfoldable pub apply_event : Transfer → ParsedEvent → Exec Db (Unit {0})
  apply_event t parsed db =
      if is_text "success" parsed.status && is_processing t.status
      then apply_success t parsed db
      else if is_text "failed" parsed.status
      then update_transfer t.id (failed_row "Payment failed via webhook notification") db
      else (ok tt, db)

  unfoldable pub process_transfer : ℕ → ParsedEvent → Option Transfer → Exec WebhookStore (Unit {0})
  process_transfer k parsed none s = close_event k s
  process_transfer k parsed (some t) s =
      if is_terminal t.status
      then close_event k s
      else (on_db (apply_event t parsed) >> finish k (some s.db.bank.now)) s

  unfoldable pub process_event : (ℕ → String) → ℕ → ParsedEvent → Exec WebhookStore (Unit {0})
  process_event id_text k parsed = do
    update_event k (λ e. record e { status = event_processing; attempts = e.attempts + 1 })
    found ← gets (λ s. find (is_referenced id_text parsed.reference) s.db.transfers)
    process_transfer k parsed found

  unfoldable pub handle_event : (ℕ → String) → WebhookJob → Payload → Exec WebhookStore (Unit {0})
  handle_event id_text job (flutterwave_payload p) =
      process_event id_text job.webhook_event_id (parse_flw_event p)
  handle_event id_text job (stripe_payload p) =
      process_event id_text job.webhook_event_id (parse_stripe_event p)

-- `onFailed`
unfoldable pub on_webhook_failed : ℕ → ℕ → ℕ → String → Exec WebhookStore (Unit {0})
on_webhook_failed attempts attempts_made event_id message s =
    if leb attempts attempts_made
    then update_event event_id
        (λ e. record e { status = event_failed; error_message = some message }) s
    else (ok tt, s)
