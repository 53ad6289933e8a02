-- ===== src/Webhooks/Dedup.antt =====
-- The deduplication of incoming events in src/modules/webhooks/webhooks.controller.ts, by the
-- identifier of the provider.
use mathlib.Core.Path.{subst}
use text.Mathlib.TextPositions.{eq_refl}
use transact_go.Outcome.{
  Reason, err, forbidden, internal, ok, queue_unavailable, signature_invalid,
  signature_unverifiable,
}
use transact_go.Prelude.{
  Bool, Bool-cases, List, String, ap, false, find, if-false, if-true, inl, inr, is_some, none, refl,
  some, sym, true, ℕ, ◌&&◌, ◌∷◌, ◌≡◌,
}
use transact_go.Webhooks.Controller.{
  IncomingEvent, Receipt, WebhookStore, accept_event, find_event, handle_flutterwave, new_event,
  process_webhook_event, queue_event, same_event,
}
use transact_go.Webhooks.Entities.{FlutterwavePayload, WebhookEvent, is_text}

abbrev pub seen : Receipt
seen = record { received = true; event_id = none }

new_event_found :
    (i : String) (k : ℕ) (d : IncomingEvent) (es : List WebhookEvent)
    → d.provider_event_id ≡ some i
    → is_some (find (same_event (some i)) (new_event k d ∷ es)) ≡ true
new_event_found i k d es e =
    let self : is_text i d.provider_event_id ≡ true =
      subst (λ o. is_text i o ≡ true) (sym e) (eq_refl i) in
    rw self refl

-- Whether or not the job could be queued, the event is known afterwards.
known_queued :
    (queue_up : Bool) (i : String) (d : IncomingEvent) (s : WebhookStore)
    → d.provider_event_id ≡ some i
    → is_some (find_event (some i) (queue_event queue_up d s).1) ≡ true
unfolding queue_event
known_queued true i d s e = new_event_found i s.next_event_id d s.events e
known_queued false i d s e = new_event_found i s.next_event_id d s.events e

-- An event that is known is acknowledged and changes nothing.
duplicate :
    (queue_up raced : Bool) (i : String) (d : IncomingEvent) (s : WebhookStore)
    → d.provider_event_id ≡ some i
    → is_some (find_event (some i) s) ≡ true
    → process_webhook_event queue_up raced d s ≡ (ok seen, s)
unfolding process_webhook_event
duplicate queue_up raced i d s e known =
    if-true (is_some (find_event d.provider_event_id s)) (ok seen, s)
      (accept_event queue_up raced d s) (subst (λ o. is_some (find_event o s) ≡ true) (sym e) known)

fresh_event :
    (queue_up : Bool) (i : String) (d : IncomingEvent) (s : WebhookStore)
    → d.provider_event_id ≡ some i
    → is_some (find_event (some i) s) ≡ false
    → process_webhook_event queue_up false d s ≡ queue_event queue_up d s
unfolding process_webhook_event accept_event
fresh_event queue_up i d s e new =
    if-false (is_some (find_event d.provider_event_id s)) (ok seen, s) (queue_event queue_up d s)
      (subst (λ o. is_some (find_event o s) ≡ false) (sym e) new)

known_after :
    (queue_up : Bool) (i : String) (d : IncomingEvent) (s : WebhookStore)
    → d.provider_event_id ≡ some i
    → is_some (find_event (some i) (process_webhook_event queue_up false d s).1) ≡ true
known_after queue_up i d s e = elim (Bool-cases (is_some (find_event (some i) s))) [
  | inl old ↦
      subst (λ r. is_some (find_event (some i) r.1) ≡ true)
        (sym (duplicate queue_up false i d s e old)) old
  | inr new ↦
      subst (λ r. is_some (find_event (some i) r.1) ≡ true) (sym (fresh_event queue_up i d s e new))
        (known_queued queue_up i d s e)
]

-- Once an event with an identifier has been taken in, whether or not its job could be queued,
-- every later delivery under the same identifier is acknowledged, stores nothing and queues
-- nothing.
pub process_webhook_event_once :
    (queue_up later_up raced : Bool) (i : String) (d d' : IncomingEvent) (s : WebhookStore)
    → d.provider_event_id ≡ some i
    → d'.provider_event_id ≡ some i
    → let s' = (process_webhook_event queue_up false d s).1 in
      process_webhook_event later_up raced d' s' ≡ (ok seen, s')
process_webhook_event_once queue_up later_up raced i d d' s e e' =
    duplicate later_up raced i d' (process_webhook_event queue_up false d s).1 e'
      (known_after queue_up i d s e)

-- If the queue is down when a new event with an identifier arrives, the provider is told of a
-- failure, but no retry of it will ever be processed: the event is stored without a job, and every
-- later delivery of it is acknowledged as a duplicate and queues nothing.
pub process_webhook_event_lost :
    (later_up : Bool) (i : String) (d : IncomingEvent) (s : WebhookStore)
    → d.provider_event_id ≡ some i
    → is_some (find_event (some i) s) ≡ false
    → let (first, s') = process_webhook_event false false d s in
      (first ≡ err (internal queue_unavailable))
      × (s'.webhook_jobs ≡ s.webhook_jobs)
      × (process_webhook_event later_up false d s' ≡ (ok seen, s'))
unfolding queue_event
process_webhook_event_lost later_up i d s e new =
    let first : process_webhook_event false false d s ≡ queue_event false d s =
      fresh_event false i d s e new in
    (
      ap (λ r. r.0) first,
      ap (λ r. r.1.webhook_jobs) first,
      process_webhook_event_once false later_up false i d d s e e,
    )

-- A request with no valid signature changes nothing: no event is stored and no job is queued.
pub handle_flutterwave_unsigned :
    (queue_up raced raw_body is_valid : Bool) (date_now : String) (p : FlutterwavePayload)
    (s : WebhookStore)
    → (raw_body && is_valid) ≡ false
    → ((x : Reason) × (handle_flutterwave queue_up raced raw_body is_valid date_now p s
          ≡ (err (forbidden x), s)))
unfolding handle_flutterwave
handle_flutterwave_unsigned queue_up raced false is_valid date_now p s e =
    (signature_unverifiable, refl)
handle_flutterwave_unsigned queue_up raced true false date_now p s e = (signature_invalid, refl)
handle_flutterwave_unsigned queue_up raced true true date_now p s e = cc
