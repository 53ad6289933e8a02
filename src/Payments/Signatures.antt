-- ===== src/Payments/Signatures.antt =====
-- `verifyWebhookSignature` of src/modules/payments/providers/mock-providers.ts. `hmac` is the
-- hexadecimal HMAC-SHA256 of a text under a secret, and a raw body is the text that its bytes spell.
use Prim.Native.Char.{Char, code}
use Prim.Native.String.{◌++◌}
use transact_go.Prelude.{
  Bool, List, Option, String, [], false, find, if◌then◌else◌, is_some, leb, none, not, some, str_eq,
  true, ℕ, ◌&&◌, ◌*◌, ◌+◌, ◌-◌, ◌==◌, ◌∷◌,
}
use transact_go.Prelude.Texts.{split, strip_prefix}

abbrev pub begins : String → String → Bool
unfolding strip_prefix
begins p s = is_some (strip_prefix p s)

-- `parts[1]`
abbrev pub second : List String → Option String
second [] = none
second (_ ∷ []) = none
second (_ ∷ x ∷ _) = some x

-- `p?.split('=')[1]`
abbrev pub behind_equals : Option String → Option String
unfolding split
behind_equals none = none
behind_equals (some p) = second (split 61 p)

-- `parts.find((p) => p.startsWith(name))?.split('=')[1]`
unfoldable pub header_field : String → List String → Option String
unfolding begins behind_equals
header_field name parts = behind_equals (find (begins name) parts)

module _ (hmac : (secret message : String) → String) (secret : String) where
  -- `if (!timestamp || !v1) return false`, and then the comparison of the two texts, which is false
  -- for different lengths.
  abbrev pub check_fields : Option String → Option String → String → Bool
  check_fields (some timestamp) (some v1) body =
      not (str_eq timestamp "")
      && (not (str_eq v1 "") && str_eq v1 (hmac secret (timestamp ++ ("." ++ body))))
  check_fields _ _ body = false

  unfoldable pub stripe_verify : (header body : String) → Bool
  unfolding header_field split
  stripe_verify header body =
      let parts = split 44 header in
      check_fields (header_field "t=" parts) (header_field "v1=" parts) body

-- The value of a hexadecimal digit.
abbrev pub hex_value : Char → Option ℕ
hex_value c =
    let n = code c in
    if leb 48 n && leb n 57
    then some (n - 48)
    else if leb 97 n && leb n 102
    then some (n - 87)
    else if leb 65 n && leb n 70
    then some (n - 55)
    else none

abbrev pub hex_byte : Option ℕ → Option ℕ → Option ℕ
hex_byte (some h) (some l) = some (16 * h + l)
hex_byte _ _ = none

abbrev pub add_byte : Option ℕ → List ℕ → List ℕ
add_byte none rest = []
add_byte (some b) rest = b ∷ rest

-- `Buffer.from(s, 'hex')` ends at the first pair that is not two digits.
unfoldable pub from_hex : String → List ℕ
from_hex String.[] = []
from_hex (String.◌∷◌ c String.[]) = []
from_hex (String.◌∷◌ c (String.◌∷◌ d s)) =
    add_byte (hex_byte (hex_value c) (hex_value d)) (from_hex s)

abbrev pub same_bytes : List ℕ → List ℕ → Bool
same_bytes [] [] = true
same_bytes (a ∷ xs) (b ∷ ys) = a == b && same_bytes xs ys
same_bytes _ _ = false

module _ (hmac : (secret message : String) → String) (secret : String) where
  -- Buffers of different lengths throw, which is caught.
  unfoldable pub flutterwave_verify : (signature body : String) → Bool
  unfolding from_hex
  flutterwave_verify signature body = same_bytes (from_hex signature) (from_hex (hmac secret body))
