-- ===== src/Webhooks/Signed.antt =====
-- The routes of src/modules/webhooks/webhooks.controller.ts with the signatures that the providers
-- check. A raw body is the text that its bytes spell.
use Prim.Native.String.{◌++◌}
use transact_go.Fees.Rules.{given}
use transact_go.Outcome.{Exec}
use transact_go.Payments.Service.{or_text}
use transact_go.Payments.Signatures.{check_fields, flutterwave_verify, header_field, stripe_verify}
use transact_go.Prelude.{
  Bool, Bool-cases, Option, String, ap, arith, eq_iff, false, inl, inr, is_some, none, refl, some,
  sym, true, ◌∙◌, ◌≡◌, ◌⊎◌,
}
use transact_go.Prelude.Texts.{split, strip_prefix}
use transact_go.Webhooks.Controller.{Receipt, WebhookStore, handle_flutterwave, handle_stripe}
use transact_go.Webhooks.Entities.{FlutterwavePayload, StripePayload}

module _ (hmac : (secret message : String) → String) (secret : String) (queue_up raced : Bool)
    (signature raw_body : Option String) where
  abbrev stripe_valid : Option String → Bool
  stripe_valid none = false
  stripe_valid (some body) = stripe_verify hmac secret (or_text signature "") body

  unfoldable pub stripe_webhook : StripePayload → Exec WebhookStore Receipt
  unfolding handle_stripe
  stripe_webhook = handle_stripe queue_up raced (is_some raw_body) (stripe_valid raw_body)

  abbrev flutterwave_valid : Option String → Bool
  flutterwave_valid none = false
  flutterwave_valid (some body) = flutterwave_verify hmac secret (or_text signature "") body

  unfoldable pub flutterwave_webhook : String → FlutterwavePayload → Exec WebhookStore Receipt
  unfolding handle_flutterwave
  flutterwave_webhook =
      handle_flutterwave queue_up raced (is_some raw_body) (flutterwave_valid raw_body)

  -- The header has, as its first field `v1`, the HMAC of the first timestamp and the body.
  pub record IsStripeSigned : Type 0 where
    pub header : String
    pub body : String
    pub timestamp : String
    pub sent : signature ≡ some header
    pub received : raw_body ≡ some body
    pub timestamp_field : header_field "t=" (split 44 header) ≡ some timestamp
    pub signed :
        header_field "v1=" (split 44 header) ≡ some (hmac secret (timestamp ++ ("." ++ body)))

  check_fields-true :
      (t v : Option String) (body : String)
      → check_fields hmac secret t v body ≡ true
      → (timestamp : String) × (t ≡ some timestamp)
        × (v ≡ some (hmac secret (timestamp ++ ("." ++ body))))
  check_fields-true none v body e = cc
  check_fields-true (some timestamp) none body e = cc
  check_fields-true (some timestamp) (some v1) body e =
      let mac : v1 ≡ hmac secret (timestamp ++ ("." ++ body)) =
        ground (arith, eq_iff v1 (hmac secret (timestamp ++ ("." ++ body)))) in
      (timestamp, refl, ap some mac)

  no_header : (body : String) → stripe_verify hmac secret "" body ≡ false
  unfolding stripe_verify header_field split strip_prefix
  no_header body = refl

  check_fields-IsStripeSigned :
      (header body : String)
      → signature ≡ some header
      → raw_body ≡ some body
      → stripe_verify hmac secret header body ≡ true
      → IsStripeSigned
  unfolding stripe_verify
  check_fields-IsStripeSigned header body sent received e =
      let (timestamp, t_field, v_field) =
        check_fields-true (header_field "t=" (split 44 header))
          (header_field "v1=" (split 44 header)) body e in
      record {
        header = header;
        body = body;
        timestamp = timestamp;
        sent = sent;
        received = received;
        timestamp_field = t_field;
        signed = v_field;
      }

  stripe_valid-IsStripeSigned :
      (given : Option String) (body : Option String)
      → signature ≡ given
      → raw_body ≡ body
      → stripe_valid body ≡ true
      → IsStripeSigned
  stripe_valid-IsStripeSigned given none sent received e = cc
  stripe_valid-IsStripeSigned none (some body) sent received e = cc (no_header body)
  stripe_valid-IsStripeSigned (some header) (some body) sent received e =
      check_fields-IsStripeSigned header body sent received
        (ap (λ o. stripe_verify hmac secret (or_text o "") body) (sym sent) ∙ e)

  refused_webhook :
      (raw valid : Bool) (p : StripePayload) (s : WebhookStore)
      → valid ≡ false
      → (handle_stripe queue_up raced raw valid p s).1 ≡ s
  unfolding handle_stripe
  refused_webhook true valid p s e = rw e refl
  refused_webhook false valid p s e = refl

  -- A request to the Stripe webhook changes nothing, neither the events nor the jobs nor anything
  -- else, unless its signature header has, beside a timestamp, the HMAC under the secret of this
  -- timestamp, a dot and the body of the request.
  pub stripe_webhook-IsStripeSigned :
      (p : StripePayload) (s : WebhookStore) → ((stripe_webhook p s).1 ≡ s) ⊎ IsStripeSigned
  unfolding stripe_webhook
  stripe_webhook-IsStripeSigned p s = elim (Bool-cases (stripe_valid raw_body)) [
    | inl valid ↦ inr (stripe_valid-IsStripeSigned signature raw_body refl refl valid)
    | inr invalid ↦ inl (refused_webhook (is_some raw_body) (stripe_valid raw_body) p s invalid)
  ]
