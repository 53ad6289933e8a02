-- ===== src/Http/UniqueDetail.antt =====
-- `parseUniqueConstraintMessage` of src/common/filters/http-exception.filter.ts: the search for
-- `/Key \((.+)\)=\((.+)\) already exists/`, in which `.+` takes as many characters as it can and
-- no end of a line.
use Prim.Native.Char.{Char, code}
use text.Mathlib.TextLemmas.{cons-append, nil-append}
use Prim.Native.String.{◌++◌ as str_append}
use transact_go.Prelude.{
  Bool, Option, String, ap, arith, false, if◌then◌else◌, none, refl, some, str_eq, ◌==◌, ◌∙◌, ◌≡◌,
}
use transact_go.Prelude.Texts.{NoneIs, is_line_end, strip_prefix, strip_prefix-append}

abbrev pub put_before : {B : Type 0} → Char → Option (String × B) → Option (String × B)
put_before c none = none
put_before c (some (p, b)) = some (String.◌∷◌ c p, b)

abbrev pub first_some : {A : Type 0} → Option A → Option A → Option A
first_some none y = y
first_some (some x) y = some x

-- The longest text in front of `separator` behind which the rest matches too.
module _ {B : Type 0} (separator : String) (rest : String → Option B) where
  abbrev pub after_separator : Option String → Option (String × B)
  after_separator none = none
  after_separator (some s) = elim (rest s) [ none ↦ none | some b ↦ some ("", b) ]

  -- `(.*)`
  unfoldable pub any_text : String → Option (String × B)
  unfolding strip_prefix
  any_text String.[] = after_separator (strip_prefix separator "")
  any_text (String.◌∷◌ c s) =
      let longer = put_before c (any_text s) in
      first_some (if is_line_end c then none else longer)
        (after_separator (strip_prefix separator (String.◌∷◌ c s)))

  -- `(.+)`
  unfoldable pub some_text : String → Option (String × B)
  unfolding any_text
  some_text String.[] = none
  some_text (String.◌∷◌ c s) = if is_line_end c then none else put_before c (any_text s)

-- `\((.+)\) already exists`
abbrev pub captured_value : Option (String × String) → Option String
captured_value none = none
captured_value (some (v, _)) = some v

abbrev pub match_value : String → Option String
match_value s = captured_value (some_text ") already exists" (λ r. some r) s)

abbrev pub match_columns : Option String → Option (String × String)
match_columns none = none
match_columns (some s) = some_text ")=(" match_value s

unfoldable pub match_detail : String → Option (String × String)
unfolding strip_prefix some_text
match_detail String.[] = none
match_detail (String.◌∷◌ c s) =
    first_some (match_columns (strip_prefix "Key (" (String.◌∷◌ c s))) (match_detail s)

abbrev pub taken_message : Option (String × String) → String
taken_message none = "Resource already exists"
taken_message (some (column, value)) =
    str_append column (str_append " '" (str_append value "' is already taken"))

-- An empty or missing detail counts as none.
unfoldable pub parse_unique_constraint_message : Option String → String
unfolding match_detail
parse_unique_constraint_message none = "Resource already exists"
parse_unique_constraint_message (some detail) = taken_message (match_detail detail)

abbrev pub closes : Char → Bool
closes c = 41 == code c

-- A text that `.+` can take: not empty, and on one line.
abbrev pub IsLine : String → Type 0
IsLine s = (str_eq s "" ≡ false) × NoneIs is_line_end s

-- The message that Postgres gives.
abbrev pub unique_detail : String → String → String
unique_detail column value =
    str_append "Key (" (str_append column (str_append ")=(" (str_append value ") already exists.")))

any_text-value :
    (v : String)
    → NoneIs is_line_end v
    → any_text ") already exists" (λ r. some r) (str_append v ") already exists.") ≡ some (v, ".")
unfolding any_text
any_text-value String.[] h = refl
any_text-value (String.◌∷◌ c v) h =
    rw (cons-append c v ") already exists.", h.0, any_text-value v h.1) refl

some_text-value :
    (v : String)
    → IsLine v
    → some_text ") already exists" (λ r. some r) (str_append v ") already exists.") ≡ some (v, ".")
unfolding some_text
some_text-value String.[] h = cc (h.0)
some_text-value (String.◌∷◌ c v) h =
    rw (cons-append c v ") already exists.", h.1.0, any_text-value v h.1.1) refl

-- No `)=(` begins at another character than `)`.
skip_other :
    (c : Char) (s : String)
    → closes c ≡ false
    → any_text ")=(" match_value s ≡ none
    → any_text ")=(" match_value (String.◌∷◌ c s) ≡ none
unfolding any_text strip_prefix
skip_other c s h e = rw (e, h) (ground arith)

no_columns :
    (v : String)
    → NoneIs closes v
    → any_text ")=(" match_value (str_append v ") already exists.") ≡ none
unfolding any_text strip_prefix
no_columns String.[] h = refl
no_columns (String.◌∷◌ c v) h =
    rw (cons-append c v ") already exists.")
      (skip_other c (str_append v ") already exists.") h.0 (no_columns v h.1))

match_detail_here :
    (s : String) (m : String × String)
    → match_columns (strip_prefix "Key (" s) ≡ some m
    → match_detail s ≡ some m
unfolding match_detail strip_prefix
match_detail_here String.[] m e = cc
match_detail_here (String.◌∷◌ c s) m e = rw e refl

module _ (value : String) (line : IsLine value) (plain : NoneIs closes value) where
  tail : String
  tail = str_append ")=(" (str_append value ") already exists.")

  -- Behind the bracket of the last `)=(` there is no other.
  no_later :
      any_text ")=(" match_value
        (String.◌∷◌ "=" (String.◌∷◌ "(" (str_append value ") already exists.")))
      ≡ none
  no_later =
      skip_other "=" (String.◌∷◌ "(" (str_append value ") already exists.")) refl
        (skip_other "(" (str_append value ") already exists.") refl (no_columns value plain))

  tail_lem :
      tail ≡ String.◌∷◌ ")" (String.◌∷◌ "=" (String.◌∷◌ "(" (str_append value ") already exists.")))
  unfolding tail
  tail_lem = rw (cons-append ")" "=(", cons-append "=" "(", cons-append "(" "", nil-append) refl

  any_text-columns :
      (column : String)
      → NoneIs is_line_end column
      → any_text ")=(" match_value (str_append column tail) ≡ some (column, value)
  unfolding any_text strip_prefix
  any_text-columns String.[] h =
      rw (nil-append tail, tail_lem, no_later) (ground (arith, some_text-value value line))
  any_text-columns (String.◌∷◌ c column) h =
      rw (cons-append c column tail, h.0, any_text-columns column h.1) refl

  some_text-columns :
      (column : String)
      → IsLine column
      → some_text ")=(" match_value (str_append column tail) ≡ some (column, value)
  unfolding some_text
  some_text-columns String.[] h = cc (h.0)
  some_text-columns (String.◌∷◌ c column) h =
      rw (cons-append c column tail, h.1.0, any_text-columns column h.1.1) refl

  -- The message that a client sees for a duplicate names the column and the value that Postgres
  -- gives in its detail, if both are on one line and not empty and the value has no closing bracket.
  pub parse_unique_constraint_message-detail :
      (column : String)
      → IsLine column
      → parse_unique_constraint_message (some (unique_detail column value))
        ≡ str_append column (str_append " '" (str_append value "' is already taken"))
  unfolding parse_unique_constraint_message match_detail tail
  parse_unique_constraint_message-detail column h = ap taken_message (
      match_detail_here (unique_detail column value) (column, value)
        (ap match_columns (strip_prefix-append "Key (" (str_append column tail))
          ∙ some_text-columns column h))
