-- ===== src/Outcome.antt =====
-- How a call of a service ends: the exceptions of `@nestjs/common` that the services throw, each
-- with a reason that stands for its message text, and the actions that change a state and may throw.
use transact_go.Prelude.{Bool, Option, ap, if◌then◌else◌, none, some, ◌≡◌}

-- One constructor for each message of the services.
pub data Reason : Type 0 where
  wallet_exists wallet_not_found access_denied debit_not_positive wallet_not_active : Reason
  insufficient_funds credit_not_positive wallet_closed : Reason
  source_not_found destination_not_found user_not_found same_wallet cross_currency : Reason
  transfer_not_positive kyc_required daily_limit_exceeded transfer_not_found : Reason
  wrong_currency amount_not_positive fraud_blocked unknown_provider queue_unavailable : Reason
  deposit_failed disbursement_failed signature_unverifiable signature_invalid : Reason
  key_missing key_too_short request_in_progress : Reason
  already_at_tier submission_pending : Reason
  email_taken invalid_credentials account_locked account_suspended account_closed : Reason
  login_again token_reuse user_gone authentication_required tier_required : Reason
  token_expired token_invalid not_authenticated invalid_body token_missing column_too_long
        database_unavailable :
      Reason
  cache_unavailable rate_unavailable : Reason

pub data Exception : Type 0 where
  bad_request forbidden not_found conflict unauthorized internal : Reason → Exception

pub data Result (A : Type 0) : Type 0 where
  ok : A → Result A
  err : Exception → Result A

-- A method: it changes the state and returns or throws. What was written before a throw stays
-- written, so the state comes back beside an exception too.
abbrev pub Exec : Type 0 → Type 0 → Type 0
Exec S A = S → Result A × S

module _ {S A : Type 0} where
  abbrev pub pure : A → Exec S A
  pure a s = (ok a, s)

  abbrev pub throw : Exception → Exec S A
  throw e s = (err e, s)

  abbrev pub gets : (S → A) → Exec S A
  gets f s = (ok (f s), s)

  abbrev pub or_throw : Option A → Exception → Exec S A
  or_throw none e s = (err e, s)
  or_throw (some a) e s = (ok a, s)

  -- `commitTransaction` when the body has returned, `rollbackTransaction` when it threw.
  abbrev pub commit : S → Result A × S → Result A × S
  commit before (ok a, after) = (ok a, after)
  commit before (err e, after) = (err e, before)

  abbrev pub in_transaction : Exec S A → Exec S A
  in_transaction m s = commit s (m s)

abbrev pub throw_if : {S : Type 0} → Bool → Exception → Exec S (Unit {0})
throw_if c e s = (if c then err e else ok tt, s)

abbrev pub modify : {S : Type 0} → (S → S) → Exec S (Unit {0})
modify f s = (ok tt, f s)

infixl 5 ◌>>=◌ ◌>>◌
abbrev pub ◌>>=◌ : {S A B : Type 0} → Exec S A → (A → Exec S B) → Exec S B
◌>>=◌ m f s = let (r, s') = m s in elim r [ ok a ↦ f a s' | err e ↦ (err e, s') ]

abbrev pub ◌>>◌ : {S A B : Type 0} → Exec S A → Exec S B → Exec S B
m >> k = m >>= λ _. k

abbrev pub resume : {S A B : Type 0} → (A → Exec S B) → Result A × S → Result B × S
resume f x = elim x.0 [ ok a ↦ f a x.1 | err e ↦ (err e, x.1) ]

-- The steps of a block whose first call has a known outcome.
module _ {S A B : Type 0} (m : Exec S A) (f : A → Exec S B) {s s' : S} where
  pub bind-ok : {a : A} → m s ≡ (ok a, s') → (m >>= f) s ≡ f a s'
  bind-ok e = ap (resume f) e

  pub bind-err : {x : Exception} → m s ≡ (err x, s') → (m >>= f) s ≡ (err x, s')
  bind-err e = ap (resume f) e
