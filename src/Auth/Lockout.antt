-- ===== src/Auth/Lockout.antt =====
-- The lock of src/modules/auth/auth.service.ts: wrong passwords for one account, one after the other.
use mathlib.Core.Path.{subst}
use transact_go.Auth.Interfaces.{Bcrypt, Jwt}
use transact_go.Auth.Service.{
  AuthDb, LoginDto, check_password, failed_attempt, find_by_email, lock_duration, login,
  max_failed_attempts, record_failed_attempt, stored_hash,
}
use transact_go.Outcome.{account_locked, err, invalid_credentials, unauthorized}
use transact_go.Prelude.{
  All, Bool-cases, List, String, [], ap, arith, false, find, inl, inr, leb, length, refl, some,
  str_eq, sym, true, ℕ, ◌+◌, ◌<◌, ◌==◌, ◌∙◌, ◌∷◌, ◌≡◌, ◌≤◌,
}
use transact_go.Prelude.Rows.{update_row}
use transact_go.Users.Entities.{User, is_locked}

module _ (email : String) where
  -- An update of the row that an email finds, which keeps the emails.
  pub find_by_email-update :
      (f : User → User) (t : List User) (u : User)
      → ((x : User) → (f x).email ≡ x.email)
      → find (λ x. str_eq x.email email) t ≡ some u
      → find (λ x. str_eq x.email email) (update_row User.id u.id f t) ≡ some (f u)
  find_by_email-update f [] u keep e = cc
  find_by_email-update f (x ∷ t) u keep e = elim (Bool-cases (str_eq x.email email)) [
    | inl here ↦
        let same : x ≡ u = ground arith in
        let key : (x.id == u.id) ≡ true = ground arith in
        let kept : str_eq (f x).email email ≡ true = rw (keep x) here in
        rw (key, kept) (ap (λ y. some (f y)) same)
    | inr later ↦
        let rest : find (λ x. str_eq x.email email) t ≡ some u = rw later at e in
        let kept : str_eq (f x).email email ≡ false = rw (keep x) later in
        elim (Bool-cases (x.id == u.id)) [
          | inl twin ↦ rw (twin, kept) (find_by_email-update f t u keep rest)
          | inr other ↦ rw (other, later) (find_by_email-update f t u keep rest)
        ]
  ]

module _ (bcrypt : Bcrypt) (jwt : Jwt) (email : String) where
  abbrev pub dto_of : String → LoginDto
  dto_of password = record { email = email; password = password }

  -- Requests to log in, each with the salt that its hash would draw and its password.
  unfoldable pub attempt_all : List (ℕ × String) → AuthDb → AuthDb
  attempt_all [] db = db
  attempt_all ((salt, password) ∷ rest) db =
      attempt_all rest (login bcrypt jwt salt (dto_of password) db).1

  -- A locked account refuses every password, the right one too.
  pub login_locked :
      (salt : ℕ) (password : String) (u : User) (db : AuthDb)
      → find_by_email email db ≡ some u
      → is_locked db.now u ≡ true
      → login bcrypt jwt salt (dto_of password) db ≡ (err (unauthorized account_locked), db)
  unfolding login
  login_locked salt password u db found locked = rw (found, locked) refl

  attempt_all_locked :
      (rs : List (ℕ × String)) (u : User) (db : AuthDb)
      → find_by_email email db ≡ some u
      → is_locked db.now u ≡ true
      → attempt_all rs db ≡ db
  unfolding attempt_all
  attempt_all_locked [] u db found locked = refl
  attempt_all_locked ((salt, password) ∷ rs) u db found locked =
      ap (λ x. attempt_all rs x.1) (login_locked salt password u db found locked)
      ∙ attempt_all_locked rs u db found locked

  abbrev pub fail : User → AuthDb → AuthDb
  fail u db = record db {
    users = update_row User.id u.id (failed_attempt (u.failed_login_attempts + 1) db.now) db.users;
  }

  -- A wrong password for an account that is not locked.
  login_wrong :
      (salt : ℕ) (password : String) (u : User) (db : AuthDb)
      → find_by_email email db ≡ some u
      → is_locked db.now u ≡ false
      → bcrypt.compare password (stored_hash (some u)) ≡ false
      → login bcrypt jwt salt (dto_of password) db
        ≡ (err (unauthorized invalid_credentials), fail u db)
  unfolding login check_password record_failed_attempt
  login_wrong salt password u db found free wrong = rw (found, free, wrong) refl

  locked_before :
      (until now : ℕ) (u : User)
      → u.locked_until ≡ some until
      → now < until
      → is_locked now u ≡ true
  unfolding is_locked
  locked_before until now u e soon = rw e (ground arith)

  locked_at :
      (now : ℕ) (u : User) → u.locked_until ≡ some (now + lock_duration) → is_locked now u ≡ true
  locked_at now u e = locked_before (now + lock_duration) now u e (omega arith)

  abbrev pub AreWrong : User → List (ℕ × String) → Type 0
  AreWrong u = All (λ r. bcrypt.compare r.1 (stored_hash (some u)) ≡ false)

  -- What many wrong passwords leave of an account: it is locked for thirty minutes from a time on.
  pub record IsShut (now : ℕ) (u : User) (db : AuthDb) : Type 0 where
    pub row : User
    pub row_found : find_by_email email db ≡ some row
    pub until : row.locked_until ≡ some (now + lock_duration)
    pub same_hash : row.password_hash ≡ u.password_hash
    pub same_status : row.status ≡ u.status
    pub same_time : db.now ≡ now

  attempt_all_wrong :
      (salt : ℕ) (password : String) (rs : List (ℕ × String)) (u : User) (db : AuthDb)
      → find_by_email email db ≡ some u
      → is_locked db.now u ≡ false
      → bcrypt.compare password (stored_hash (some u)) ≡ false
      → attempt_all ((salt, password) ∷ rs) db ≡ attempt_all rs (fail u db)
  unfolding attempt_all
  attempt_all_wrong salt password rs u db found free wrong =
      ap (λ x. attempt_all rs x.1) (login_wrong salt password u db found free wrong)

  is_locked_same :
      (now : ℕ) (u v : User) → u.locked_until ≡ v.locked_until → is_locked now u ≡ is_locked now v
  unfolding is_locked
  is_locked_same now u v e = rw e refl

  -- The attempt that locks, and what is after it.
  fifth_attempt :
      (r : ℕ × String) (rs : List (ℕ × String)) (u : User) (db : AuthDb)
      → find_by_email email db ≡ some u
      → is_locked db.now u ≡ false
      → bcrypt.compare r.1 (stored_hash (some u)) ≡ false
      → leb max_failed_attempts (u.failed_login_attempts + 1) ≡ true
      → IsShut db.now u (attempt_all (r ∷ rs) db)
  fifth_attempt (salt, password) rs u db found free wrong enough =
      let f : User → User = failed_attempt (u.failed_login_attempts + 1) db.now in
      let found' : find_by_email email (fail u db) ≡ some (f u) =
        find_by_email-update email f db.users u (λ x. refl) found in
      let until : (f u).locked_until ≡ some (db.now + lock_duration) = rw enough refl in
      let same : attempt_all ((salt, password) ∷ rs) db ≡ fail u db =
        attempt_all_wrong salt password rs u db found free wrong
        ∙ attempt_all_locked rs (f u) (fail u db) found' (locked_at db.now (f u) until) in
      subst (IsShut db.now u) (sym same) (record {
        row = f u;
        row_found = found';
        until = until;
        same_hash = refl;
        same_status = refl;
        same_time = refl;
      })

  failed-IsShut :
      (now : ℕ) (u : User) (db : AuthDb)
      → IsShut now (failed_attempt (u.failed_login_attempts + 1) now u) db
      → IsShut now u db
  failed-IsShut now u db h = record {
    row = h.row;
    row_found = h.row_found;
    until = h.until;
    same_hash = h.same_hash;
    same_status = h.same_status;
    same_time = h.same_time;
  }

  pub attempts_lock :
      (r : ℕ × String) (rs : List (ℕ × String)) (u : User) (db : AuthDb)
      → find_by_email email db ≡ some u
      → is_locked db.now u ≡ false
      → AreWrong u (r ∷ rs)
      → max_failed_attempts ≤ length (r ∷ rs) + u.failed_login_attempts
      → IsShut db.now u (attempt_all (r ∷ rs) db)
  attempts_lock r [] u db found free wrong many =
      fifth_attempt r [] u db found free wrong.0 (ground arith)
  attempts_lock (salt, password) (r ∷ rs) u db found free wrong many =
      let f : User → User = failed_attempt (u.failed_login_attempts + 1) db.now in
      let found' : find_by_email email (fail u db) ≡ some (f u) =
        find_by_email-update email f db.users u (λ x. refl) found in
      elim (Bool-cases (leb max_failed_attempts (u.failed_login_attempts + 1))) [
        | inl enough ↦ fifth_attempt (salt, password) (r ∷ rs) u db found free wrong.0 enough
        | inr few ↦
            let kept : (f u).locked_until ≡ u.locked_until = rw few refl in
            subst (IsShut db.now u)
              (sym (attempt_all_wrong salt password (r ∷ rs) u db found free wrong.0))
              (failed-IsShut db.now u (attempt_all (r ∷ rs) (fail u db)) (
                attempts_lock r rs (f u) (fail u db) found'
                  (is_locked_same db.now (f u) u kept ∙ free) wrong.1 (omega arith)))
      ]

  -- From an account that is found by its email and not locked, take one or more wrong passwords for
  -- it, so many that with the failures counted before they are five or more. Then each login for
  -- this email before thirty minutes have passed, with the right password too, is refused as locked
  -- and changes nothing.
  pub login-attempt_all :
      (r : ℕ × String) (rs : List (ℕ × String)) (u : User) (db : AuthDb)
      → find_by_email email db ≡ some u
      → is_locked db.now u ≡ false
      → AreWrong u (r ∷ rs)
      → max_failed_attempts ≤ length (r ∷ rs) + u.failed_login_attempts
      → (later salt : ℕ) (password : String) → later < db.now + lock_duration
      → login bcrypt jwt salt (dto_of password) (record (attempt_all (r ∷ rs) db) { now = later })
        ≡ (err (unauthorized account_locked), record (attempt_all (r ∷ rs) db) { now = later })
  login-attempt_all r rs u db found free wrong many later salt password soon =
      let shut : IsShut db.now u (attempt_all (r ∷ rs) db) =
        attempts_lock r rs u db found free wrong many in
      login_locked salt password shut.row (record (attempt_all (r ∷ rs) db) { now = later })
        shut.row_found (locked_before (db.now + lock_duration) later shut.row shut.until soon)
