-- ===== src/Payments/Providers.antt =====
-- `charge` and `parseWebhookEvent` of src/modules/payments/providers/mock-providers.ts. What
-- `Math.random()` returns and the fresh part of a reference are arguments; the waiting is left out.
use Prim.Native.String.{◌++◌}
use transact_go.Payments.Processor.{
  ChargeResult, ChargeStatus, charge_failed, charge_pending, success,
}
use transact_go.Prelude.{
  Bool-cases, Option, String, arith, if◌then◌else◌, inl, inr, none, refl, some, str_eq, ℕ, ◌/◌, ◌≡◌,
  ◌≢◌,
}
use transact_go.Prelude.Int.{ℤ}
use transact_go.Ratio.{Ratio, above_share, floor_mul}
use transact_go.Webhooks.Controller.{flutterwave_event_type, stripe_event_type}
use transact_go.Webhooks.Entities.{FlutterwavePayload, StripePayload}

pub record ChargeParams : Type 0 where
  pub amount : ℤ
  pub currency : String
  pub reference : String

-- The fields that the job handlers read, with the amount, the currency and the raw response.
pub record ProviderCharge (R : Type 0) : Type 0 where
  pub result : ChargeResult
  pub amount : ℤ
  pub currency : String
  pub raw_response : R

-- A hundredth of an amount: Flutterwave uses major units.
pub record Hundredths : Type 0 where
  pub of : ℤ

pub record FlutterwaveRaw : Type 0 where
  pub status : String
  pub id : ℕ
  pub tx_ref : String
  pub flw_ref : String
  pub amount : Hundredths
  pub currency : String
  pub charged_amount : Hundredths
  pub data_status : String
  pub created_at : ℕ

pub record StripeRaw : Type 0 where
  pub id : String
  pub object : String
  pub amount : ℤ
  pub currency : String
  pub status : String
  pub metadata_reference : String
  pub created : ℕ

abbrev pub flutterwave_status : Ratio → ChargeStatus
flutterwave_status rand =
    if above_share rand 1 10
    then success
    else if above_share rand 2 100
    then charge_pending
    else charge_failed

abbrev pub flutterwave_message : ChargeStatus → String
flutterwave_message success = "Transaction was successful."
flutterwave_message charge_pending = "Transaction is pending confirmation."
flutterwave_message charge_failed = "Transaction failed. Insufficient funds."

-- `status === 'success' ? 'successful' : status`
abbrev pub flutterwave_text : ChargeStatus → String
flutterwave_text success = "successful"
flutterwave_text charge_pending = "pending"
flutterwave_text charge_failed = "failed"

unfoldable pub flutterwave_charge :
    Ratio → (id_random : Ratio) → String → (now : ℕ) → ChargeParams → ProviderCharge FlutterwaveRaw
unfolding floor_mul
flutterwave_charge rand id_random fresh now params =
    let status = flutterwave_status rand in
    record {
      result = record {
        status = status;
        provider_reference = "FLW-" ++ fresh;
        message = flutterwave_message status;
      };
      amount = params.amount;
      currency = params.currency;
      raw_response = record {
        status = flutterwave_text status;
        id = floor_mul 9_999_999 id_random;
        tx_ref = params.reference;
        flw_ref = "FLW-" ++ fresh;
        amount = record { of = params.amount };
        currency = params.currency;
        charged_amount = record { of = params.amount };
        data_status = flutterwave_text status;
        created_at = now;
      };
    }

abbrev pub stripe_status : Ratio → ChargeStatus
stripe_status rand = if above_share rand 5 100 then success else charge_failed

abbrev pub stripe_message : ChargeStatus → String
stripe_message success = "Payment succeeded"
stripe_message _ = "Your card was declined."

abbrev pub stripe_text : ChargeStatus → String
stripe_text success = "succeeded"
stripe_text _ = "failed"

-- `lower` is `toLowerCase`, and times are in milliseconds.
unfoldable pub stripe_charge :
    (lower : String → String) → Ratio → String → (now : ℕ) → ChargeParams → ProviderCharge StripeRaw
stripe_charge lower rand fresh now params =
    let status = stripe_status rand in
    record {
      result = record {
        status = status;
        provider_reference = "ch_" ++ fresh;
        message = stripe_message status;
      };
      amount = params.amount;
      currency = lower params.currency;
      raw_response = record {
        id = "ch_" ++ fresh;
        object = "charge";
        amount = params.amount;
        currency = lower params.currency;
        status = stripe_text status;
        metadata_reference = params.reference;
        created = now / 1000;
      };
    }

-- Stripe always decides: a charge is never left pending.
stripe_charge_decides :
    (lower : String → String) (rand : Ratio) (fresh : String) (now : ℕ) (params : ChargeParams)
    → (stripe_charge lower rand fresh now params).result.status ≢ charge_pending
unfolding stripe_charge
stripe_charge_decides lower rand fresh now params e = elim (Bool-cases (above_share rand 5 100)) [
  | inl paid ↦ ground arith
  | inr declined ↦ ground arith
]

-- `parseWebhookEvent`
pub record ParsedEvent : Type 0 where
  pub event_type : String
  pub reference : Option String
  pub status : Option String

abbrev pub flutterwave_event_status : Option String → Option String
flutterwave_event_status none = none
flutterwave_event_status (some s) = if str_eq s "successful" then some "success" else some s

unfoldable pub parse_flutterwave_event : FlutterwavePayload → ParsedEvent
parse_flutterwave_event p = record {
  event_type = flutterwave_event_type p;
  reference = p.data_tx_ref;
  status = flutterwave_event_status p.data_status;
}

abbrev pub stripe_event_status : Option String → String
stripe_event_status none = "failed"
stripe_event_status (some s) = if str_eq s "succeeded" then "success" else "failed"

unfoldable pub parse_stripe_event : StripePayload → ParsedEvent
parse_stripe_event p = record {
  event_type = stripe_event_type p;
  reference = p.object_reference;
  status = some (stripe_event_status p.object_status);
}

-- The event that a Flutterwave charge leads to, as its raw response would be sent.
abbrev pub event_of_charge : (event_id : String) → FlutterwaveRaw → FlutterwavePayload
event_of_charge event_id raw = record {
  event = none;
  event_id = some event_id;
  data_id = none;
  data_tx_ref = some raw.tx_ref;
  data_status = some raw.data_status;
}

abbrev status_word : ChargeStatus → String
status_word success = "success"
status_word charge_pending = "pending"
status_word charge_failed = "failed"

event_status-flutterwave_text :
    (s : ChargeStatus) → flutterwave_event_status (some (flutterwave_text s)) ≡ some (status_word s)
event_status-flutterwave_text success = refl
event_status-flutterwave_text charge_pending = refl
event_status-flutterwave_text charge_failed = refl

-- What Flutterwave says of a charge in its response is read back from an event with the same data:
-- the reference of the request and the status of the charge.
pub parse_flutterwave_event-charge :
    (rand id_random : Ratio) (fresh event_id : String) (now : ℕ) (params : ChargeParams)
    → let charge = flutterwave_charge rand id_random fresh now params in
      let event = parse_flutterwave_event (event_of_charge event_id charge.raw_response) in
      (event.reference ≡ some params.reference)
      × (event.status ≡ some (status_word charge.result.status))
unfolding parse_flutterwave_event flutterwave_charge
parse_flutterwave_event-charge rand id_random fresh event_id now params =
    (refl, event_status-flutterwave_text (flutterwave_status rand))
