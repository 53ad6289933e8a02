-- ===== src/Payments/SignedHeader.antt =====
-- The header of a Stripe webhook in src/modules/payments/providers/mock-providers.ts, written and
-- read.
use Prim.Native.String.{◌++◌}
use text.Mathlib.TextLemmas.{cons-append, nil-append}
use transact_go.Payments.Signatures.{header_field, stripe_verify}
use transact_go.Prelude.{String, [], false, refl, some, str_eq, ◌∷◌, ◌≡◌}
use transact_go.Prelude.Texts.{NoneIs, is_char, split, split-append, split_plain, strip_prefix}

-- Neither a comma nor an equals sign, and not empty.
pub record IsValue (s : String) : Type 0 where
  pub nonempty : str_eq s "" ≡ false
  pub no_comma : NoneIs (is_char 44) s
  pub no_equals : NoneIs (is_char 61) s

-- "t=timestamp,v1=hmac_signature"
abbrev pub stripe_header : String → String → String
stripe_header timestamp v1 = "t=" ++ (timestamp ++ ("," ++ ("v1=" ++ v1)))

module _ (timestamp v1 : String) (t_value : IsValue timestamp) (v_value : IsValue v1) where
  t_part : String
  t_part = String.◌∷◌ "t" (String.◌∷◌ "=" timestamp)

  v_part : String
  v_part = String.◌∷◌ "v" (String.◌∷◌ "1" (String.◌∷◌ "=" v1))

  v_text : "v1=" ++ v1 ≡ v_part
  unfolding v_part
  v_text = rw (cons-append "v" "1=", cons-append "1" "=", cons-append "=" "", nil-append) refl

  header_text :
      stripe_header timestamp v1
      ≡ String.◌∷◌ "t" (String.◌∷◌ "=" (timestamp ++ String.◌∷◌ "," v_part))
  header_text =
      rw
        (
          v_text,
          cons-append "," "",
          cons-append "t" "=",
          cons-append "=" "",
          nil-append v_part,
          nil-append (timestamp ++ String.◌∷◌ "," v_part),
        )
        refl

  v_plain : split 44 v_part ≡ v_part ∷ []
  unfolding v_part
  v_plain = split_plain 44 v_part (refl, (refl, (refl, v_value.no_comma)))

  header_parts : split 44 (stripe_header timestamp v1) ≡ t_part ∷ v_part ∷ []
  unfolding split t_part
  header_parts =
      rw (header_text, split-append 44 timestamp "," v_part t_value.no_comma refl, v_plain) refl

  t_field : header_field "t=" (t_part ∷ v_part ∷ []) ≡ some timestamp
  unfolding header_field t_part split strip_prefix
  t_field = rw (split_plain 61 timestamp t_value.no_equals) refl

  v_field : header_field "v1=" (t_part ∷ v_part ∷ []) ≡ some v1
  unfolding header_field t_part v_part split strip_prefix
  v_field = rw (split_plain 61 v1 v_value.no_equals) refl

  -- A header that is written as Stripe writes it, with a timestamp and a signature that are not
  -- empty and have neither commas nor equals signs, is accepted exactly when the signature is the
  -- HMAC of the timestamp, a dot and the body; nothing else of the request or the time matters.
  pub stripe_verify-stripe_header :
      (hmac : (secret message : String) → String) (secret body : String)
      → stripe_verify hmac secret (stripe_header timestamp v1) body
        ≡ str_eq v1 (hmac secret (timestamp ++ ("." ++ body)))
  unfolding stripe_verify
  stripe_verify-stripe_header hmac secret body =
      rw (header_parts, t_field, v_field, t_value.nonempty, v_value.nonempty) refl
