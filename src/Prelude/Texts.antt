-- ===== src/Prelude/Texts.antt =====
-- Texts, character by character.
use Prim.Native.Char.{Char, code}
use Prim.Native.Nat.{ℕ}
use Prim.Native.String.{String, ◌++◌}
use mathlib.Core.Bool.{Bool, false, true, ◌||◌}
use mathlib.Core.List.{List, [], ◌∷◌}
use mathlib.Core.Option.{Option, none, some}
use mathlib.Core.Path.{◌≡◌, refl}
use native.Mathlib.Omega.{arith}
use text.Mathlib.TextLemmas.{cons-append, nil-append}
use transact_go.Prelude.Tests.{◌==◌, if◌then◌else◌}

-- The rest of a text behind a prefix.
unfoldable pub strip_prefix : String → String → Option String
strip_prefix String.[] s = some s
strip_prefix (String.◌∷◌ c p) String.[] = none
strip_prefix (String.◌∷◌ c p) (String.◌∷◌ d s) = if code c == code d then strip_prefix p s else none

module _ (test : Char → Bool) where
  abbrev pub NoneIs : String → Type 0
  NoneIs String.[] = Unit
  NoneIs (String.◌∷◌ c s) = (test c ≡ false) × NoneIs s

pub strip_prefix-append : (p s : String) → strip_prefix p (p ++ s) ≡ some s
unfolding strip_prefix
strip_prefix-append String.[] s = rw (nil-append s) refl
strip_prefix-append (String.◌∷◌ c p) s =
    rw (cons-append c p s) (ground (arith, strip_prefix-append p s))

-- `s.split(separator)`, for a separator of one character.
abbrev pub add_to_first : Char → List String → List String
add_to_first c [] = String.◌∷◌ c "" ∷ []
add_to_first c (p ∷ ps) = String.◌∷◌ c p ∷ ps

unfoldable pub split : ℕ → String → List String
split sep String.[] = "" ∷ []
split sep (String.◌∷◌ c s) =
    let parts = split sep s in if code c == sep then "" ∷ parts else add_to_first c parts

-- The ends of a line, which the dot of a regular expression does not match.
abbrev pub is_line_end : Char → Bool
is_line_end c = code c == 10 || (code c == 13 || (code c == 0x2028 || code c == 0x2029))

abbrev pub is_char : ℕ → Char → Bool
is_char n c = code c == n

module _ (sep : ℕ) where
  pub split_plain : (s : String) → NoneIs (is_char sep) s → split sep s ≡ s ∷ []
  unfolding split
  split_plain String.[] h = refl
  split_plain (String.◌∷◌ c s) h = rw (h.0, split_plain s h.1) refl

  pub split-append :
      (s : String) (c : Char) (rest : String)
      → NoneIs (is_char sep) s
      → (code c == sep) ≡ true
      → split sep (s ++ String.◌∷◌ c rest) ≡ s ∷ split sep rest
  unfolding split
  split-append String.[] c rest h e = rw (nil-append (String.◌∷◌ c rest), e) refl
  split-append (String.◌∷◌ d s) c rest h e =
      rw (cons-append d s (String.◌∷◌ c rest), h.0, split-append s c rest h.1 e) refl
