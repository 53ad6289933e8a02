-- ===== src/Webhooks/Stranded.antt =====
-- Every way in which the system goes on after `initiateDeposit` and `initiateWithdrawal`: the jobs
-- of the payments queue with any answers of the providers, the webhook jobs with any payloads, and
-- the failure handlers, in any order and number.
use transact_go.Outcome.{Result, err, ok, resume}
use transact_go.Payments.Deposits.{complete_deposit_skips}
use transact_go.Payments.Processor.{
  ChargeResult, DepositJob, WithdrawalJob, failed_row, handle_deposit, handle_withdrawal,
  on_payment_failed,
}
use transact_go.Payments.Service.{complete_deposit, or_text}
use transact_go.Payments.Stranded.{
  IsStranded, handle_deposit-IsStranded, handle_withdrawal-IsStranded, on_payment_failed-IsStranded,
  update-IsStranded,
}
use transact_go.Prelude.{
  Bool, Bool-cases, List, Option, String, [], arith, false, find, inl, inr, leb, none, refl, some,
  true, ℕ, ◌&&◌, ◌+◌, ◌∷◌, ◌≡◌,
}
use transact_go.Prelude.Rows.{IsKeyed, find_row-find, update_row}
use transact_go.Transfers.Entities.{
  Transfer, TransferStatus, is_deposit, is_pending, is_processing, is_terminal, pending, processing,
}
use transact_go.Transfers.Store.{Db, find_transfer}
use transact_go.Wallets.Service.{Bank}
use transact_go.Webhooks.Controller.{WebhookStore}
use transact_go.Webhooks.Entities.{
  Payload, WebhookEvent, WebhookJob, event_processing, flutterwave_payload, is_text, stripe_payload,
}
use transact_go.Webhooks.Processor.{
  ParsedEvent, apply_event, finish, handle_event, is_referenced, on_db, on_webhook_failed, paid_row,
  parse_flw_event, parse_stripe_event, process_event, process_transfer,
}

pub data Event : Type 0 where
  deposit_job : DepositJob → ChargeResult → Event
  withdrawal_job : WithdrawalJob → ChargeResult → Event
  payment_failed : ℕ → ℕ → Option ℕ → String → Event
  webhook_job : WebhookJob → Payload → Event
  webhook_failed : ℕ → ℕ → ℕ → String → Event

module _ (id_text : ℕ → String) (queue_up : Bool) where
  -- An event whose handler throws leaves what it has written.
  unfoldable pub deliver : Event → WebhookStore → WebhookStore
  deliver (deposit_job job result) s = (on_db (handle_deposit queue_up job result) s).1
  deliver (withdrawal_job job result) s = (on_db (handle_withdrawal queue_up job result) s).1
  deliver (payment_failed attempts made id message) s =
      (on_db (on_payment_failed attempts made id message) s).1
  deliver (webhook_job job payload) s = (handle_event queue_up id_text job payload s).1
  deliver (webhook_failed attempts made id message) s =
      (on_webhook_failed attempts made id message s).1

  unfoldable pub deliver_all : List Event → WebhookStore → WebhookStore
  deliver_all [] s = s
  deliver_all (e ∷ es) s = deliver_all es (deliver e s)

not_pending : (s : TransferStatus) → is_processing s ≡ true → is_pending s ≡ false
not_pending processing e = refl
not_pending pending e = cc
not_pending _ e = refl

and_right : (p q : Bool) → (p && q) ≡ true → q ≡ true
and_right p q h = ground arith

module _ (queue_up : Bool) (b : Bank) (db : Db) (h : IsStranded b db) where
  -- A processing transfer is not pending, so a webhook does not complete a deposit either.
  complete_processing :
      (t : Transfer) (r : String)
      → find_transfer t.id db ≡ some t
      → is_processing t.status ≡ true
      → complete_deposit queue_up t.id r db ≡ (ok tt, db)
  complete_processing t r found busy =
      complete_deposit_skips queue_up t.id r db
        (λ x f. let same : x ≡ t = cc (f, found) in rw same (not_pending t.status busy))

  apply_event-IsStranded :
      (t : Transfer) (parsed : ParsedEvent)
      → find_transfer t.id db ≡ some t
      → IsStranded b (apply_event queue_up t parsed db).1
  unfolding apply_event
  apply_event-IsStranded t parsed found =
      elim (Bool-cases (is_text "success" parsed.status && is_processing t.status)) [
        | inl good ↦ elim (Bool-cases (is_deposit t.type)) [
          | inl dep ↦
              rw
                (
                  good,
                  dep,
                  complete_processing t (or_text parsed.reference "") found
                      (and_right (is_text "success" parsed.status) (is_processing t.status) good),
                )
                h
          | inr other ↦
              rw (good, other) (update-IsStranded b t.id (paid_row db.bank.now) db (λ t. refl) h)
        ]
        | inr bad ↦ elim (Bool-cases (is_text "failed" parsed.status)) [
          | inl lost ↦
              rw (bad, lost)
                (update-IsStranded b t.id (failed_row "Payment failed via webhook notification") db
                  (λ t. refl) h)
          | inr unknown ↦ rw (bad, unknown) h
        ]
      ]

finish_keeps :
    (b : Bank) (k : ℕ) (at : Option ℕ) (s : WebhookStore) (r : Result (Unit {0})) (d : Db)
    → IsStranded b d
    → IsStranded b (resume (λ _. finish k at) (r, record s { db = d })).1.db
finish_keeps b k at s (ok _) d h = h
finish_keeps b k at s (err _) d h = h

module _ (queue_up : Bool) (id_text : ℕ → String) (b : Bank) where
  process_transfer-IsStranded :
      (k : ℕ) (parsed : ParsedEvent) (o : Option Transfer) (s : WebhookStore)
      → IsStranded b s.db
      → ((t : Transfer) → o ≡ some t → find_transfer t.id s.db ≡ some t)
      → IsStranded b (process_transfer queue_up k parsed o s).1.db
  unfolding process_transfer
  process_transfer-IsStranded k parsed none s h found = h
  process_transfer-IsStranded k parsed (some t) s h found =
      elim (Bool-cases (is_terminal t.status)) [
        | inl over ↦ rw over h
        | inr live ↦
            let (r, d) = apply_event queue_up t parsed s.db in
            rw live (
              finish_keeps b k (some s.db.bank.now) s r d
                (apply_event-IsStranded queue_up b s.db h t parsed (found t refl)))
      ]

  process_event-IsStranded :
      (k : ℕ) (parsed : ParsedEvent) (s : WebhookStore)
      → IsStranded b s.db
      → IsStranded b (process_event queue_up id_text k parsed s).1.db
  unfolding process_event
  process_event-IsStranded k parsed s h =
      process_transfer-IsStranded k parsed
        (find (is_referenced id_text parsed.reference) s.db.transfers)
        (record s {
          events =
              update_row WebhookEvent.id k
                (λ e. record e { status = event_processing; attempts = e.attempts + 1 }) s.events;
        })
        h
        (λ t found.
          find_row-find Transfer.id (is_referenced id_text parsed.reference) s.db.transfers t
            h.keyed found)

  handle_event-IsStranded :
      (job : WebhookJob) (p : Payload) (s : WebhookStore)
      → IsStranded b s.db
      → IsStranded b (handle_event queue_up id_text job p s).1.db
  unfolding handle_event
  handle_event-IsStranded job (flutterwave_payload p) s h =
      process_event-IsStranded job.webhook_event_id (parse_flw_event p) s h
  handle_event-IsStranded job (stripe_payload p) s h =
      process_event-IsStranded job.webhook_event_id (parse_stripe_event p) s h

  on_webhook_failed-db :
      (attempts made id : ℕ) (message : String) (s : WebhookStore)
      → (on_webhook_failed attempts made id message s).1.db ≡ s.db
  unfolding on_webhook_failed
  on_webhook_failed-db attempts made id message s = elim (Bool-cases (leb attempts made)) [
    | inl spent ↦ rw spent refl
    | inr left ↦ rw left refl
  ]

  deliver-IsStranded :
      (e : Event) (s : WebhookStore)
      → IsStranded b s.db
      → IsStranded b (deliver id_text queue_up e s).db
  unfolding deliver
  deliver-IsStranded (deposit_job job result) s h =
      handle_deposit-IsStranded queue_up b s.db h job result
  deliver-IsStranded (withdrawal_job job result) s h =
      handle_withdrawal-IsStranded queue_up b s.db h job result
  deliver-IsStranded (payment_failed attempts made id message) s h =
      on_payment_failed-IsStranded queue_up b s.db h attempts made id message
  deliver-IsStranded (webhook_job job p) s h = handle_event-IsStranded job p s h
  deliver-IsStranded (webhook_failed attempts made id message) s h =
      rw (on_webhook_failed-db attempts made id message s) h

  deliver_all-IsStranded :
      (es : List Event) (s : WebhookStore)
      → IsStranded b s.db
      → IsStranded b (deliver_all id_text queue_up es s).db
  unfolding deliver_all
  deliver_all-IsStranded [] s h = h
  deliver_all-IsStranded (e ∷ es) s h =
      deliver_all-IsStranded es (deliver id_text queue_up e s) (deliver-IsStranded e s h)

-- Whatever jobs run with whatever answers of the providers, whatever webhooks are processed and
-- whatever attempts fail, in any order and number, no wallet and no ledger entry ever changes: a
-- deposit is never credited, and a withdrawal that fails is never given back. The only condition is
-- that no two transfers share a key.
pub deliver_all-bank :
    (id_text : ℕ → String) (queue_up : Bool) (es : List Event) (s : WebhookStore)
    → IsKeyed Transfer.id s.db.transfers
    → (deliver_all id_text queue_up es s).db.bank ≡ s.db.bank
deliver_all-bank id_text queue_up es s keyed =
    (deliver_all-IsStranded queue_up id_text s.db.bank es s
      (record { bank = refl; keyed = keyed })).bank
