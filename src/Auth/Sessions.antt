-- ===== src/Auth/Sessions.antt =====
-- The sessions of src/modules/auth/auth.service.ts: the refresh token of an account from the login
-- that issues it to the logout.
use mathlib.Core.Path.{subst}
use transact_go.Auth.Interfaces.{Bcrypt, Jwt, JwtPayload}
use transact_go.Auth.Service.{
  AuthDb, AuthResponse, auth_user_of, generate_token_response, has_text, logout, or_empty,
  payload_of, refresh_found, refresh_tokens, rotate,
}
use transact_go.Outcome.{err, forbidden, login_again, ok, token_reuse}
use transact_go.Prelude.{
  Bool-cases, List, Option, String, [], ap, arith, inl, inr, none, refl, some, sym, ℕ, ◌==◌, ◌∙◌,
  ◌∷◌, ◌≡◌,
}
use transact_go.Prelude.Rows.{find_row, find_row-update_self, update_row}
use transact_go.Users.Entities.{User}

abbrev pub clock_at : ℕ → AuthDb → AuthDb
clock_at t db = record db { now = t }

module _ (jwt : Jwt) where
  abbrev pub refresh_token_of : User → ℕ → String
  refresh_token_of u now = jwt.sign_refresh (payload_of u) now

  abbrev pub response : User → ℕ → AuthResponse
  response u now = record {
    access_token = jwt.sign_access (payload_of u) now;
    refresh_token = refresh_token_of u now;
    expires_in = 900;
    user = auth_user_of u;
  }

module _ (bcrypt : Bcrypt) (jwt : Jwt) where
  abbrev with_token : ℕ → String → User → User
  with_token salt token u = record u { refresh_token_hash = some (bcrypt.hash salt token) }

  generate_token_response-find_row :
      (salt : ℕ) (u : User) (db : AuthDb)
      → find_row User.id u.id db.users ≡ some u
      → find_row User.id u.id (generate_token_response bcrypt jwt salt u db).1.users
        ≡ some (with_token salt (refresh_token_of jwt u db.now) u)
  unfolding generate_token_response
  generate_token_response-find_row salt u db found =
      find_row-update_self User.id u.id (with_token salt (refresh_token_of jwt u db.now)) db.users u
        (λ v. refl) found

  -- A token that agrees with the one of the account in the part that bcrypt reads.
  refresh_tokens_agree :
      (salt salt' : ℕ) (raw token : String) (u : User) (db : AuthDb)
      → find_row User.id u.id db.users ≡ some (with_token salt' token u)
      → bcrypt.effective raw ≡ bcrypt.effective token
      → refresh_tokens bcrypt jwt salt u.id raw db
        ≡ generate_token_response bcrypt jwt salt (with_token salt' token u) db
  unfolding refresh_tokens rotate
  refresh_tokens_agree salt salt' raw token u db found agree =
      rw (found, bcrypt.hash_nonempty salt' token, bcrypt.compare-hash raw token salt' agree) refl

  -- Take tokens for refreshing that share the part bcrypt reads whenever they carry the same payload,
  -- and a user for whom one is issued. Put to `refreshTokens`, as long as the strategy in front of it
  -- takes the token as one that has not expired, this token is accepted and replaced by a new one,
  -- and the token that was replaced is accepted once more.
  pub refresh_tokens_twice :
      (u : User) (db : AuthDb)
      → find_row User.id u.id db.users ≡ some u
      → ((p : JwtPayload) (s t : ℕ)
          → bcrypt.effective (jwt.sign_refresh p s) ≡ bcrypt.effective (jwt.sign_refresh p t))
      → (salt salt' salt'' later again : ℕ)
      → let token = refresh_token_of jwt u db.now in
        let issued = clock_at later (generate_token_response bcrypt jwt salt u db).1 in
        let rotated = clock_at again (refresh_tokens bcrypt jwt salt' u.id token issued).1 in
        ((refresh_tokens bcrypt jwt salt' u.id token issued).0 ≡ ok (response jwt u later))
        × ((refresh_tokens bcrypt jwt salt'' u.id token rotated).0 ≡ ok (response jwt u again))
  unfolding generate_token_response
  refresh_tokens_twice u db found prefix salt salt' salt'' later again =
      let token : String = refresh_token_of jwt u db.now in
      let issued : AuthDb = clock_at later (generate_token_response bcrypt jwt salt u db).1 in
      let u1 : User = with_token salt token u in
      let found1 : find_row User.id u.id issued.users ≡ some u1 =
        generate_token_response-find_row salt u db found in
      let rotated : AuthDb = clock_at again (refresh_tokens bcrypt jwt salt' u.id token issued).1 in
      let first : refresh_tokens bcrypt jwt salt' u.id token issued
          ≡ generate_token_response bcrypt jwt salt' u1 issued =
        refresh_tokens_agree salt' salt token token u issued found1 refl in
      let found2 : find_row User.id u.id rotated.users
          ≡ some (with_token salt' (refresh_token_of jwt u1 later) u1) =
        ap (λ x. find_row User.id u.id x.1.users) first
        ∙ generate_token_response-find_row salt' u1 issued found1 in
      (
        ap (λ x. x.0) first,
        ap (λ x. x.0)
            (refresh_tokens_agree salt'' salt' token (refresh_token_of jwt u1 later) u1 rotated
              found2 (prefix (payload_of u) db.now later)),
      )

  -- No token of the account is left.
  abbrev pub IsLoggedOut : ℕ → AuthDb → Type 0
  IsLoggedOut user_id db =
      (salt : ℕ) (raw : String)
      → refresh_tokens bcrypt jwt salt user_id raw db ≡ (err (forbidden login_again), db)

  refresh_found_cleared :
      (salt user_id : ℕ) (raw : String) (db : AuthDb) (t : List User)
      → refresh_found bcrypt jwt salt user_id raw
          (find_row User.id user_id
            (update_row User.id user_id (λ u. record u { refresh_token_hash = none }) t))
          db
        ≡ (err (forbidden login_again), db)
  refresh_found_cleared salt user_id raw db [] = refl
  refresh_found_cleared salt user_id raw db (u ∷ t) = elim (Bool-cases (u.id == user_id)) [
    | inl here ↦ simp here
    | inr later ↦ simp (later, refresh_found_cleared salt user_id raw db t)
  ]

  logout-IsLoggedOut : (user_id : ℕ) (db : AuthDb) → IsLoggedOut user_id (logout user_id db).1
  unfolding refresh_tokens logout
  logout-IsLoggedOut user_id db salt raw =
      refresh_found_cleared salt user_id raw (logout user_id db).1 db.users

  refresh_found_reuse :
      (salt user_id : ℕ) (raw : String) (o : Option User) (db : AuthDb)
      → (refresh_found bcrypt jwt salt user_id raw o db).0 ≡ err (forbidden token_reuse)
      → (refresh_found bcrypt jwt salt user_id raw o db).1 ≡ (logout user_id db).1
  unfolding rotate generate_token_response logout
  refresh_found_reuse salt user_id raw none db e = cc
  refresh_found_reuse salt user_id raw (some u) db e =
      elim (Bool-cases (has_text u.refresh_token_hash)) [
        | inl there ↦ elim (Bool-cases (bcrypt.compare raw (or_empty u.refresh_token_hash))) [
          | inl right ↦ ground arith
          | inr wrong ↦ rw (there, wrong) refl
        ]
        | inr gone ↦ ground arith
      ]

  -- Once a token is refused as one that is used again, every token for refreshing is refused and
  -- changes nothing, as after a logout, until a new one is issued.
  pub refresh_tokens-IsLoggedOut :
      (salt user_id : ℕ) (raw : String) (db : AuthDb)
      → (refresh_tokens bcrypt jwt salt user_id raw db).0 ≡ err (forbidden token_reuse)
      → IsLoggedOut user_id (refresh_tokens bcrypt jwt salt user_id raw db).1
  unfolding refresh_tokens
  refresh_tokens-IsLoggedOut salt user_id raw db e =
      subst (IsLoggedOut user_id)
        (sym (refresh_found_reuse salt user_id raw (find_row User.id user_id db.users) db e))
        (logout-IsLoggedOut user_id db)
