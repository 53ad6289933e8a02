-- ===== src/Tests/Webhooks.antt =====
-- The theorems on webhooks, applied.
use transact_go.Outcome.{err, internal, ok, queue_unavailable}
use transact_go.Payments.Processor.{success}
use transact_go.Payments.Service.{deposit_row, flutterwave}
use transact_go.Payments.Signatures.{header_field, stripe_verify}
use transact_go.Payments.SignedHeader.{stripe_header, stripe_verify-stripe_header}
use transact_go.Prelude.{
  List, String, [], false, if◌then◌else◌, none, refl, some, str_eq, true, ℕ, ◌==◌, ◌∷◌, ◌≡◌, ◌⊎◌,
}
use transact_go.Prelude.Int.{pos}
use transact_go.Prelude.Texts.{split, strip_prefix}
use transact_go.Tests.Fixtures.{seeded_schedule, start_db, two_wallets}
use transact_go.Transfers.Entities.{Transfer}
use transact_go.Webhooks.Controller.{
  IncomingEvent, WebhookStore, accept_event, handle_stripe, process_webhook_event, queue_event,
}
use transact_go.Webhooks.Dedup.{process_webhook_event_lost, process_webhook_event_once}
use transact_go.Webhooks.Entities.{FlutterwavePayload, StripePayload, flutterwave_payload}
use transact_go.Webhooks.Signed.{IsStripeSigned, stripe_webhook, stripe_webhook-IsStripeSigned}
use transact_go.Webhooks.Stranded.{Event, deliver_all, deliver_all-bank, deposit_job, webhook_job}

abbrev waiting_deposit : Transfer
waiting_deposit =
    deposit_row seeded_schedule 7
      (record {
        wallet_id = 1;
        amount = pos 50_000;
        currency = "NGN";
        provider = "flutterwave";
        customer_email = none;
      })
      10 1000

abbrev empty_store : WebhookStore
empty_store = record {
  db = record start_db { transfers = waiting_deposit ∷ []; next_id = 11 };
  events = [];
  next_event_id = 1;
  webhook_jobs = [];
}

abbrev number_text : ℕ → String
number_text n = if n == 10 then "10" else "other"

abbrev paid_payload : FlutterwavePayload
paid_payload = record {
  event = some "charge.completed";
  event_id = some "evt-1";
  data_id = some "evt-1";
  data_tx_ref = some "10";
  data_status = some "successful";
}

-- The charge succeeds, and the webhook that confirms it arrives.
abbrev history : List Event
history =
    deposit_job
      (record {
        transfer_id = 10;
        user_id = 7;
        wallet_id = 1;
        amount = pos 50_000;
        currency = "NGN";
        provider = "flutterwave";
        attempts_made = 0;
      })
      (record { status = success; provider_reference = "FLW-1"; message = "ok" })
    ∷ webhook_job
        (record {
          webhook_event_id = 1;
          provider = flutterwave;
          payload = flutterwave_payload paid_payload;
        })
        (flutterwave_payload paid_payload)
    ∷ []

deliver_all-bank_example : (deliver_all number_text true history empty_store).db.bank ≡ two_wallets
deliver_all-bank_example = deliver_all-bank number_text true history empty_store (refl, tt)

abbrev incoming : IncomingEvent
incoming = record {
  provider = flutterwave;
  provider_event_id = some "evt-1";
  event_type = "charge.completed";
  payload = flutterwave_payload paid_payload;
}

process_webhook_event_once_example :
    let s' = (process_webhook_event true false incoming empty_store).1 in
    process_webhook_event true false incoming s'
    ≡ (ok (record { received = true; event_id = none }), s')
process_webhook_event_once_example =
    process_webhook_event_once true true false "evt-1" incoming incoming empty_store refl refl

process_webhook_event_lost_example :
    let (first, s') = process_webhook_event false false incoming empty_store in
    (first ≡ err (internal queue_unavailable))
    × (s'.webhook_jobs ≡ [])
    × (process_webhook_event true false incoming s'
        ≡ (ok (record { received = true; event_id = none }), s'))
process_webhook_event_lost_example =
    process_webhook_event_lost true "evt-1" incoming empty_store refl refl

-- A stand-in for HMAC-SHA256.
abbrev toy_hmac : String → String → String
toy_hmac secret message = if str_eq message "1700000000.{}" then "5ec2e7" else "0ddba11"

stripe_verify-stripe_header_example :
    stripe_verify toy_hmac "whsec_mock" (stripe_header "1700000000" "5ec2e7") "{}"
    ≡ str_eq "5ec2e7" (toy_hmac "whsec_mock" "1700000000.{}")
stripe_verify-stripe_header_example =
    stripe_verify-stripe_header "1700000000" "5ec2e7"
      (record {
        nonempty = refl;
        no_comma =
            (refl, (refl, (refl, (refl, (refl, (refl, (refl, (refl, (refl, (refl, tt))))))))));
        no_equals =
            (refl, (refl, (refl, (refl, (refl, (refl, (refl, (refl, (refl, (refl, tt))))))))));
      })
      (record {
        nonempty = refl;
        no_comma = (refl, (refl, (refl, (refl, (refl, (refl, tt))))));
        no_equals = (refl, (refl, (refl, (refl, (refl, (refl, tt))))));
      })
      toy_hmac "whsec_mock" "{}"

abbrev stripe_payload_1 : StripePayload
stripe_payload_1 = record {
  id = some "evt_1";
  type = some "payment_intent.succeeded";
  object_id = none;
  object_reference = some "10";
  object_status = some "succeeded";
}

stripe_webhook-IsStripeSigned_example :
    ((stripe_webhook toy_hmac "whsec_mock" true false
        (some "t=1700000000,v1=5ec2e7")
        (some "{}")
        stripe_payload_1
        empty_store).1
      ≡ empty_store)
    ⊎ IsStripeSigned toy_hmac "whsec_mock" true false (some "t=1700000000,v1=5ec2e7") (some "{}")
stripe_webhook-IsStripeSigned_example =
    stripe_webhook-IsStripeSigned toy_hmac "whsec_mock" true false (some "t=1700000000,v1=5ec2e7")
      (some "{}") stripe_payload_1 empty_store

-- The request above is accepted.
stripe_webhook_accepted :
    (stripe_webhook toy_hmac "whsec_mock" true false
      (some "t=1700000000,v1=5ec2e7")
      (some "{}")
      stripe_payload_1
      empty_store).0
    ≡ ok (record { received = true; event_id = some 1 })
unfolding stripe_webhook handle_stripe process_webhook_event accept_event queue_event stripe_verify
    header_field split strip_prefix
stripe_webhook_accepted = refl
