-- ===== src/Notifications/Service.antt =====
-- src/modules/notifications/notifications.service.ts. The state is the queue `notifications`, the
-- newest job first, and `queue_up` says whether its server accepts jobs during the call.
use Prim.Native.String.{◌++◌}
use transact_go.Outcome.{Exec, err, internal, ok, queue_unavailable}
use transact_go.Prelude.{
  Bool, Bool-cases, List, Option, String, [], arith, if◌then◌else◌, inl, inr, ltb, refl, some, suc,
  zero, ℕ, ◌%◌, ◌/◌, ◌<◌, ◌==◌, ◌∷◌, ◌≡◌,
}
use transact_go.Prelude.Int.{negsuc, pos, ℤ}

pub data NotificationType : Type 0 where
  transfer_sent transfer_received transfer_failed : NotificationType
  kyc_approved kyc_rejected login_new_device fraud_alert daily_summary : NotificationType

pub data Channel : Type 0 where
  email sms push : Channel

-- The objects that the methods pass as `data`.
pub data NotificationData : Type 0 where
  sent_data : (amount : ℤ) (currency to formatted_amount : String) → NotificationData
  received_data : (amount : ℤ) (currency from formatted_amount : String) → NotificationData
  kyc_data : (tier : ℕ) (is_approved : Bool) → NotificationData
  fraud_data : (rule : String) (amount : ℤ) (currency : String) → NotificationData

pub record NotificationPayload : Type 0 where
  pub user_id : ℕ
  pub type : NotificationType
  pub content : NotificationData
  pub channels : Option (List Channel)

-- `notifQueue.add('send-notification', payload, …)`, to be tried three times.
unfoldable pub send : Bool → NotificationPayload → Exec (List NotificationPayload) (Unit {0})
send queue_up payload jobs =
    if queue_up then (ok tt, payload ∷ jobs) else (err (internal queue_unavailable), jobs)

abbrev pub digit_text : ℕ → String
digit_text n =
    if n == 0
    then "0"
    else if n == 1
    then "1"
    else if n == 2
    then "2"
    else if n == 3
    then "3"
    else if n == 4
    then "4"
    else if n == 5
    then "5"
    else if n == 6
    then "6"
    else if n == 7
    then "7"
    else if n == 8
    then "8"
    else "9"

-- The decimal digits of a number, one for each unit of fuel.
unfoldable pub digits : ℕ → ℕ → String
digits zero n = ""
digits (suc f) n =
    let more = digits f (n / 10) in (if ltb n 10 then "" else more) ++ digit_text (n % 10)

-- Any fuel above the number gives all its digits.
pub digits_enough : (f g n : ℕ) → n < f → n < g → digits f n ≡ digits g n
unfolding digits
digits_enough zero g n p q = absurd (omega arith)
digits_enough (suc f) zero n p q = absurd (omega arith)
digits_enough (suc f) (suc g) n p q = elim (Bool-cases (ltb n 10)) [
  | inl last ↦ rw last refl
  | inr more ↦ rw (digits_enough f g (n / 10) (ground arith) (ground arith)) refl
]

abbrev pub decimal_text : ℕ → String
unfolding digits
decimal_text n = digits (suc n) n

-- `(amount / 100).toFixed(2)`, whose two decimals are exact for an integer amount.
unfoldable pub to_fixed : ℤ → String
unfolding digits
to_fixed (pos n) =
    decimal_text (n / 100) ++ ("." ++ (digit_text (n / 10 % 10) ++ digit_text (n % 10)))
to_fixed (negsuc n) =
    let m = suc n in
    "-" ++ (decimal_text (m / 100) ++ ("." ++ (digit_text (m / 10 % 10) ++ digit_text (m % 10))))

abbrev pub formatted : ℤ → String → String
unfolding to_fixed
formatted amount currency = currency ++ (" " ++ to_fixed amount)

abbrev pub both : Option (List Channel)
both = some (email ∷ push ∷ [])

module _ (queue_up : Bool) (user_id : ℕ) where
  unfoldable pub send_transfer_sent :
      ℤ → (currency to : String) → Exec (List NotificationPayload) (Unit {0})
  unfolding send to_fixed
  send_transfer_sent amount currency to = send queue_up (record {
    user_id = user_id;
    type = transfer_sent;
    content = sent_data amount currency to (formatted amount currency);
    channels = both;
  })

  unfoldable pub send_transfer_received :
      ℤ → (currency from : String) → Exec (List NotificationPayload) (Unit {0})
  unfolding send to_fixed
  send_transfer_received amount currency from = send queue_up (record {
    user_id = user_id;
    type = transfer_received;
    content = received_data amount currency from (formatted amount currency);
    channels = both;
  })

  unfoldable pub send_kyc_result :
      (is_approved : Bool) (tier : ℕ) → Exec (List NotificationPayload) (Unit {0})
  unfolding send
  send_kyc_result is_approved tier = send queue_up (record {
    user_id = user_id;
    type = if is_approved then kyc_approved else kyc_rejected;
    content = kyc_data tier is_approved;
    channels = both;
  })

  unfoldable pub send_fraud_alert :
      (rule : String) → ℤ → (currency : String) → Exec (List NotificationPayload) (Unit {0})
  unfolding send
  send_fraud_alert rule amount currency = send queue_up (record {
    user_id = user_id;
    type = fraud_alert;
    content = fraud_data rule amount currency;
    channels = both;
  })
