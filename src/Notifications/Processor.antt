-- ===== src/Notifications/Processor.antt =====
-- src/modules/notifications/notifications.processor.ts, which writes what it would send to the log. A
-- field that the object lacks is spelled `undefined`. The waiting is left out.
use Prim.Native.String.{◌++◌}
use mathlib.Core.List.{◌++◌ as list_append}
use transact_go.Notifications.Service.{
  Channel, NotificationData, NotificationPayload, NotificationType, both, daily_summary,
  decimal_text, digits, email, formatted, fraud_alert, kyc_approved, kyc_data, kyc_rejected,
  login_new_device, push, received_data, send, send_transfer_sent, sent_data, transfer_failed,
  transfer_received, transfer_sent,
}
use transact_go.Prelude.{List, String, [], none, refl, some, true, ℕ, ◌∷◌, ◌≡◌}
use transact_go.Prelude.Int.{ℤ}

pub data Delivery : Type 0 where
  announced : Channel → (user_id : ℕ) → NotificationType → NotificationData → Delivery
  logged : Channel → String → Delivery
  warned : Channel → String → Delivery

abbrev pub formatted_of : NotificationData → String
formatted_of (sent_data _ _ _ f) = f
formatted_of (received_data _ _ _ f) = f
formatted_of _ = "undefined"

abbrev pub to_of : NotificationData → String
to_of (sent_data _ _ to _) = to
to_of _ = "undefined"

abbrev pub from_of : NotificationData → String
from_of (received_data _ _ from _) = from
from_of _ = "undefined"

abbrev pub tier_of : NotificationData → String
unfolding digits
tier_of (kyc_data tier _) = decimal_text tier
tier_of _ = "undefined"

abbrev pub type_name : NotificationType → String
type_name transfer_sent = "transfer_sent"
type_name transfer_received = "transfer_received"
type_name transfer_failed = "transfer_failed"
type_name kyc_approved = "kyc_approved"
type_name kyc_rejected = "kyc_rejected"
type_name login_new_device = "login_new_device"
type_name fraud_alert = "fraud_alert"
type_name daily_summary = "daily_summary"

abbrev pub message_for : Channel → NotificationType → NotificationData → Delivery
message_for channel transfer_sent d =
    logged channel ("You sent " ++ (formatted_of d ++ (" to " ++ to_of d)))
message_for channel transfer_received d =
    logged channel ("You received " ++ (formatted_of d ++ (" from " ++ from_of d)))
message_for channel kyc_approved d =
    logged channel ("Your KYC Tier " ++ (tier_of d ++ " verification was approved!"))
message_for channel kyc_rejected d =
    logged channel "Your KYC verification was rejected. Please resubmit."
message_for channel fraud_alert d =
    warned channel "Security alert: unusual activity detected on your account"
message_for channel type d = logged channel ("notification type=" ++ type_name type)

abbrev pub dispatch : Channel → ℕ → NotificationType → NotificationData → List Delivery
dispatch channel user_id type d = announced channel user_id type d ∷ message_for channel type d ∷ []

abbrev pub dispatch_all : List Channel → ℕ → NotificationType → NotificationData → List Delivery
dispatch_all [] user_id type d = []
dispatch_all (c ∷ cs) user_id type d =
    list_append (dispatch c user_id type d) (dispatch_all cs user_id type d)

unfoldable pub handle_send_notification : NotificationPayload → List Delivery
handle_send_notification p =
    dispatch_all (elim p.channels [ none ↦ email ∷ [] | some cs ↦ cs ]) p.user_id p.type p.content

-- What reaches a user of a transfer that they sent, if the queue takes the job: a mail and a push
-- message with the amount in major units and the one who receives it.
pub handle-send_transfer_sent :
    (user_id : ℕ) (amount : ℤ) (currency to : String) (jobs : List NotificationPayload)
    → let (r, jobs') = send_transfer_sent true user_id amount currency to jobs in
      let line = "You sent " ++ (formatted amount currency ++ (" to " ++ to)) in
      (p : NotificationPayload) × (jobs' ≡ p ∷ jobs)
      × (handle_send_notification p
          ≡ announced email user_id transfer_sent p.content
            ∷ logged email line
            ∷ announced push user_id transfer_sent p.content
            ∷ logged push line
            ∷ [])
unfolding send_transfer_sent handle_send_notification send
handle-send_transfer_sent user_id amount currency to jobs = (
  record {
    user_id = user_id;
    type = transfer_sent;
    content = sent_data amount currency to (formatted amount currency);
    channels = both;
  },
  refl,
  refl,
)
