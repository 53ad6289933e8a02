-- ===== src/Auth/Registry.antt =====
-- What the table of users of src/modules/auth/auth.service.ts holds, and the updates that keep it.
use mathlib.Core.Path.{subst}
use transact_go.Auth.Accepted.{Fits, IsEmail, IsPassword}
use transact_go.Auth.Bodies.{Validator}
use transact_go.Auth.Interfaces.{Bcrypt}
use transact_go.Auth.Service.{AuthDb, clear_attempts, update_user}
use transact_go.Prelude.{
  All, Bool-cases, List, String, [], arith, false, find, inl, inr, ltb, none, refl, str_eq, sym, ℕ,
  ◌==◌, ◌∷◌, ◌≡◌,
}
use transact_go.Prelude.Rows.{update_row}
use transact_go.Users.Entities.{User}

module _ (v : Validator) (bcrypt : Bcrypt) where
  -- An account whose email and names the decorators accept, and whose hash is that of a password
  -- that they accept.
  abbrev pub IsAccount : User → Type 0
  IsAccount u =
      IsEmail v u.email
      × Fits v 2 50 u.first_name
      × Fits v 2 50 u.last_name
      × ((salt : ℕ) × (password : String) × IsPassword v password
          × (u.password_hash ≡ bcrypt.hash salt password))

  -- No row has the email.
  abbrev pub IsFree : String → List User → Type 0
  IsFree address t = All (λ u. str_eq u.email address ≡ false) t

  -- Every row is such an account, with an email of its own.
  abbrev pub IsRegistry : List User → Type 0
  IsRegistry [] = Unit
  IsRegistry (u ∷ t) = IsAccount u × IsFree u.email t × IsRegistry t

  -- An update that keeps the emails, and the accounts.
  abbrev pub IsKeeping : (User → User) → Type 0
  IsKeeping f = ((u : User) → (f u).email ≡ u.email) × ((u : User) → IsAccount u → IsAccount (f u))

  pub find-IsFree :
      (address : String) (t : List User)
      → find (λ u. str_eq u.email address) t ≡ none
      → IsFree address t
  find-IsFree address [] e = tt
  find-IsFree address (u ∷ t) e = elim (Bool-cases (str_eq u.email address)) [
    | inl here ↦ cc (e, here)
    | inr apart ↦ (apart, find-IsFree address t (rw apart at e))
  ]

  update_row-IsFree :
      (k : ℕ) (f : User → User) (address : String) (t : List User)
      → ((u : User) → (f u).email ≡ u.email)
      → IsFree address t
      → IsFree address (update_row User.id k f t)
  update_row-IsFree k f address [] keep h = tt
  update_row-IsFree k f address (u ∷ t) keep h =
      (ground (arith, keep u, h.0), update_row-IsFree k f address t keep h.1)

  pub update_row-IsRegistry :
      (k : ℕ) (f : User → User) (t : List User)
      → IsKeeping f
      → IsRegistry t
      → IsRegistry (update_row User.id k f t)
  update_row-IsRegistry k f [] keep h = tt
  update_row-IsRegistry k f (u ∷ t) keep (account, free, rest) =
      let rest' = update_row-IsRegistry k f t keep rest in
      let free' = update_row-IsFree k f u.email t keep.0 free in
      elim (Bool-cases (u.id == k)) [
        | inl here ↦ rw here (
          keep.1 u account,
          subst (λ x. IsFree x (update_row User.id k f t)) (sym (keep.0 u)) free',
          rest',
        )
        | inr other ↦ rw other (account, free', rest')
      ]

  pub update_user-IsRegistry :
      (k : ℕ) (f : User → User) (db : AuthDb)
      → IsKeeping f
      → IsRegistry db.users
      → IsRegistry (update_user k f db).1.users
  update_user-IsRegistry k f db keep h = update_row-IsRegistry k f db.users keep h

  pub clear_attempts-IsKeeping : (failures now : ℕ) → IsKeeping (clear_attempts failures now)
  clear_attempts-IsKeeping failures now = elim (Bool-cases (ltb 0 failures)) [
    | inl some_failed ↦ rw some_failed (λ u. refl, λ u h. h)
    | inr clean ↦ rw clean (λ u. refl, λ u h. h)
  ]
