-- ===== src/Auth/Accepted.antt =====
-- What holds of a body that the decorators of src/modules/auth/dto/auth.dto.ts let through.
use transact_go.Auth.Bodies.{
  RegisterBody, Validator, Violation, accept, check_email, check_length, check_name,
  check_password_text, check_text, is_strong, no_others, normalise, normalise_field, not_email,
  or_blank, parse_register, register_dto, register_violations, require, too_long, too_short, weak,
}
use transact_go.Auth.Service.{RegisterDto}
use transact_go.Outcome.{ok}
use transact_go.Prelude.{
  Bool, Bool-cases, List, Option, String, [], arith, eq_iff, false, inl, inr, leb, none, refl, some,
  str_eq, true, ℕ, ◌++◌, ◌∷◌, ◌≡◌, ◌≤◌,
}
use mathlib.Core.Path.{subst}

module _ (v : Validator) where
  abbrev pub Fits : ℕ → ℕ → String → Type 0
  Fits low high s = (low ≤ v.length_of s) × (v.length_of s ≤ high)

  abbrev pub IsPassword : String → Type 0
  IsPassword s = Fits 8 128 s × (is_strong s ≡ true)

  abbrev pub IsEmail : String → Type 0
  IsEmail s = ((raw : String) × (s ≡ normalise v raw)) × (v.is_email s ≡ true)

  -- What the decorators accept.
  abbrev pub IsAccepted : RegisterDto → Type 0
  IsAccepted dto =
      IsEmail dto.email
      × Fits 2 50 dto.first_name
      × Fits 2 50 dto.last_name
      × IsPassword dto.password

  append_nil : {A : Type 0} → (xs ys : List A) → xs ++ ys ≡ [] → (xs ≡ []) × (ys ≡ [])
  append_nil [] ys e = (refl, e)
  append_nil (x ∷ xs) ys e = cc

  require_nil : (c : Bool) (x : Violation) → require c x ≡ [] → c ≡ true
  require_nil true x e = refl
  require_nil false x e = cc

  check_length_nil :
      (low high : ℕ) (s : String) → check_length v low high (some s) ≡ [] → Fits low high s
  check_length_nil low high s e =
      let (low_enough, high_enough) =
        append_nil (require (leb low (v.length_of s)) too_short)
          (require (leb (v.length_of s) high) too_long) e in
      let at_least = require_nil (leb low (v.length_of s)) too_short low_enough in
      let at_most = require_nil (leb (v.length_of s) high) too_long high_enough in
      (ground arith, ground arith)

  check_name_nil : (f : Option String) → check_name v f ≡ [] → Fits 2 50 (or_blank f)
  check_name_nil none e = cc
  check_name_nil (some s) e =
      check_length_nil 2 50 s (append_nil (check_text (some s)) (check_length v 2 50 (some s)) e).1

  check_email_nil :
      (f : Option String)
      → check_email v (normalise_field v f) ≡ []
      → IsEmail (or_blank (normalise_field v f))
  check_email_nil none e = cc
  check_email_nil (some s) e = ((s, refl), require_nil (v.is_email (normalise v s)) not_email e)

  check_password_text_nil :
      (f : Option String) → check_password_text v f ≡ [] → IsPassword (or_blank f)
  check_password_text_nil none e = cc
  check_password_text_nil (some s) e =
      let (fits, strong) =
        append_nil (check_length v 8 128 (some s)) (require (is_strong s) weak) e in
      (check_length_nil 8 128 s fits, require_nil (is_strong s) weak strong)

  accept-ok :
      {D : Type 0} (l : List Violation) (dto d : D) → accept v l dto ≡ ok d → (l ≡ []) × (dto ≡ d)
  accept-ok [] dto d e = (refl, cc)
  accept-ok (_ ∷ _) dto d e = cc

  -- A body that passes has no complaint of any field.
  pub parse_register_clean :
      (b : RegisterBody) (dto : RegisterDto)
      → parse_register v b ≡ ok dto
      → (register_dto v b ≡ dto)
        × (check_email v (normalise_field v b.email) ≡ [])
        × (check_name v b.first_name ≡ [])
        × (check_name v b.last_name ≡ [])
        × (check_password_text v b.password ≡ [])
  unfolding parse_register register_violations
  parse_register_clean b dto e =
      let (clean, same) = accept-ok (register_violations v b) (register_dto v b) dto e in
      let (rest, password) = append_nil _ (check_password_text v b.password) clean in
      let (rest', last) = append_nil _ (check_name v b.last_name) rest in
      let (rest'', first) = append_nil _ (check_name v b.first_name) rest' in
      let (_, address) = append_nil (no_others b.others) _ rest'' in
      (same, address, first, last, password)

  pub parse_register-IsAccepted :
      (b : RegisterBody) (dto : RegisterDto) → parse_register v b ≡ ok dto → IsAccepted dto
  parse_register-IsAccepted b dto e =
      let (same, address, first, last, password) = parse_register_clean b dto e in
      subst IsAccepted same (
        check_email_nil b.email address,
        check_name_nil b.first_name first,
        check_name_nil b.last_name last,
        check_password_text_nil b.password password,
      )

  password_not_empty : (s : String) → IsPassword s → str_eq s "" ≡ false
  password_not_empty s h = elim (Bool-cases (str_eq s "")) [
    | inl blank ↦
        let same : s ≡ "" = (eq_iff s "").0 blank in
        let none_left : v.length_of s ≡ 0 = rw same v.length_of_empty in grind (arith, h.0.0)
    | inr there ↦ there
  ]

  pub check_text-password : (f : Option String) → check_password_text v f ≡ [] → check_text f ≡ []
  check_text-password none e = cc
  check_text-password (some s) e =
      rw (password_not_empty s (check_password_text_nil (some s) e)) refl
