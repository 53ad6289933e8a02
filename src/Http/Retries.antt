-- ===== src/Http/Retries.antt =====
-- Requests that are sent again to the routes of Http/Transfers.
use Prim.Native.String.{count, ◌++◌}
use transact_go.Auth.Guards.{authenticate, can_activate, valid_token}
use transact_go.Auth.Interfaces.{JwtPayload}
use transact_go.Auth.Service.{AuthUser}
use transact_go.Http.Runs.{IsDeclined, IsSignedIn, authenticate-ok, respond-IsDeclined, route-inv}
use transact_go.Http.Transfers.{
  HttpRequest, HttpResponse, after_guards, after_token, failure, route, route_for, route_handler,
  stored, success,
}
use transact_go.Idempotency.Cases.{intercept_leaves, intercept_taken}
use transact_go.Idempotency.Interceptor.{Request, Server, has_key, intercept}
use transact_go.Idempotency.Replay.{IsUsable}
use transact_go.Outcome.{Exec, Reason, Result, err, ok}
use transact_go.Prelude.{
  All, Bool, List, String, [], ap, arith, false, if◌then◌else◌, inl, inr, ltb, refl, some, str_eq,
  suc, true, ℕ, ◌∙◌, ◌∷◌, ◌≡◌, ◌≤◌, ◌⊎◌,
}
use transact_go.Prelude.Rows.{find_row-key}
use transact_go.Transfers.Entities.{Transfer}
use transact_go.Transfers.Store.{Db}
use transact_go.Users.Entities.{KycTier, User}
use transact_go.Wallets.Preserved.{run}

abbrev pub is_success : HttpResponse → Bool
is_success (success _ _) = true
is_success (stored _ _) = false
is_success (failure _) = false

-- Posting one request after another: how many are answered by a service that returned, and what is
-- left.
module _ {D : Type 0}
    (step : HttpRequest D → Server Transfer Db → HttpResponse × Server Transfer Db) where
  unfoldable pub post_all : List (HttpRequest D) → Server Transfer Db → ℕ × Server Transfer Db
  post_all [] s = (0, s)
  post_all (q ∷ qs) s =
      let (n, s') = post_all qs (step q s).1 in (if is_success (step q s).0 then suc n else n, s')

-- A request with a token of the user and with the key.
pub record IsAttempt {D : Type 0} (user : ℕ) (key : String) (q : HttpRequest D) : Type 0 where
  pub payload : JwtPayload
  pub signed : q.token ≡ valid_token payload
  pub sender : payload.sub ≡ user
  pub sent : q.key ≡ some key

-- What the interceptor asks of a key.
pub record IsKey (key : String) : Type 0 where
  pub nonempty : str_eq key "" ≡ false
  pub long : ltb (count key) 16 ≡ false

-- What the state can be after attempts with one key: as before, or as one call of the service for
-- the user with the state before has left it.
abbrev pub IsOneCall : {D : Type 0} → (ℕ → D → Exec Db Transfer) → ℕ → Db → Db → Type 0
IsOneCall {D} service user db db' = (db' ≡ db) ⊎ ((dto : D) × (db' ≡ (service user dto db).1))

module _ (id_text : ℕ → String) (text : Reason → String) {D : Type 0} (tier : KycTier)
    (service : ℕ → D → Exec Db Transfer) (user : ℕ) (key : String) (usable : IsKey key) where
  abbrev pub user_key : String
  user_key = id_text user ++ (":" ++ key)

  abbrev post : HttpRequest D → Server Transfer Db → HttpResponse × Server Transfer Db
  post = route id_text text tier service

  module _ (q : HttpRequest D) (attempt : IsAttempt user key q) (s : Server Transfer Db) where
    signed_in_user : (who : AuthUser) → IsSignedIn s.app.users q.token who → who.id ≡ user
    signed_in_user who h =
        let own : h.payload.sub ≡ attempt.payload.sub = cc (h.signed, attempt.signed) in
        ap AuthUser.id h.same
        ∙ find_row-key User.id h.payload.sub s.app.users h.row h.found
        ∙ own
        ∙ attempt.sender

    -- An attempt is refused by a guard, or it leaves its key in the table; and if the key was there
    -- before, it is declined and changes nothing.
    data Leaves (x : HttpResponse × Server Transfer Db) : Type 0 where
      refused_at_guard : IsDeclined x.0 → x.1 ≡ s → Leaves x
      passed :
          has_key user_key x.1.records ≡ true
          → (has_key user_key s.records ≡ true → IsDeclined x.0 × (x.1 ≡ s))
          → Leaves x

    own_request : Request
    own_request = record { user = some (id_text user); key = q.key; method = "POST"; path = q.path }

    own_request-IsUsable : IsUsable own_request key
    unfolding own_request
    own_request-IsUsable = record {
      sent = attempt.sent;
      nonempty = usable.nonempty;
      long = usable.long;
    }

    route_for-Leaves : Leaves (route_for id_text text tier service user q s)
    unfolding route_for own_request
    route_for-Leaves =
        let h = route_handler id_text text tier service user q.body in
        passed (intercept_leaves h own_request s key own_request-IsUsable) (λ taken.
          let (waits, same) = intercept_taken h own_request s key own_request-IsUsable taken in
          (
            respond-IsDeclined id_text text tier service q s user (intercept h true own_request s).0
                waits,
            same,
          ))

    after_guards-Leaves :
        (who : AuthUser)
        → who.id ≡ user
        → (r : Result Bool) → Leaves (after_guards id_text text tier service q who r s)
    after_guards-Leaves who same (ok b) = rw same route_for-Leaves
    after_guards-Leaves who same (err e) = refused_at_guard tt refl

    after_token-Leaves :
        (r : Result AuthUser)
        → authenticate q.token s.app.users ≡ r
        → Leaves (after_token id_text text tier service q r s)
    after_token-Leaves (ok who) known =
        after_guards-Leaves who (signed_in_user who (authenticate-ok s.app.users q.token who known))
          (can_activate (some tier) (some who))
    after_token-Leaves (err e) unknown = refused_at_guard tt refl

    route-Leaves : Leaves (route id_text text tier service q s)
    unfolding route
    route-Leaves = after_token-Leaves (authenticate q.token s.app.users) refl

  declined_no_success : (r : HttpResponse) → IsDeclined r → is_success r ≡ false
  declined_no_success (success n t) h = absurd h
  declined_no_success (stored n b) h = refl
  declined_no_success (failure e) h = refl

  post_all_declined :
      (q : HttpRequest D) (qs : List (HttpRequest D)) (s : Server Transfer Db)
      → IsDeclined (post q s).0
      → (post q s).1 ≡ s
      → post_all post (q ∷ qs) s ≡ post_all post qs s
  unfolding post_all
  post_all_declined q qs s declined same = rw (same, declined_no_success (post q s).0 declined) refl

  post_all_taken :
      (qs : List (HttpRequest D)) (s : Server Transfer Db)
      → All (IsAttempt user key) qs
      → has_key user_key s.records ≡ true
      → post_all post qs s ≡ (0, s)
  post_all_taken [] s attempts taken = unfold post_all in refl
  post_all_taken (q ∷ qs) s attempts taken = elim (route-Leaves q attempts.0 s) [
    | refused_at_guard declined same ↦
        post_all_declined q qs s declined same ∙ post_all_taken qs s attempts.1 taken
    | passed left idle ↦
        let (declined, same) = idle taken in
        post_all_declined q qs s declined same ∙ post_all_taken qs s attempts.1 taken
  ]

  one_attempt :
      (q : HttpRequest D) (s : Server Transfer Db)
      → IsAttempt user key q
      → IsOneCall service user s.app (post q s).1.app
  one_attempt q s attempt = elim (route-inv id_text text tier service q s) [
    | inl idle ↦ inl idle.1
    | inr run ↦
        let own : run.user.id ≡ user = signed_in_user q attempt s run.user run.signed_in in
        inr (run.dto, run.after ∙ ap (λ who. (service who run.dto s.app).1) own)
  ]

  at_most_one : (b : Bool) → (if b then 1 else 0) ≤ 1
  at_most_one b = ground arith

  -- However often a user sends requests with one usable key, with whatever bodies, on whatever of
  -- the paths and with whatever tokens of that user, at most one is answered by a service that
  -- returned, and the state is as before or as one call of the service for this user leaves it.
  pub post_all_once :
      (qs : List (HttpRequest D)) (s : Server Transfer Db)
      → All (IsAttempt user key) qs
      → let (n, s') = post_all post qs s in (n ≤ 1) × IsOneCall service user s.app s'.app
  post_all_once [] s attempts = unfold post_all in (omega arith, inl refl)
  post_all_once (q ∷ qs) s attempts = elim (route-Leaves q attempts.0 s) [
    | refused_at_guard declined same ↦
        rw (post_all_declined q qs s declined same) (post_all_once qs s attempts.1)
    | passed left idle ↦
        unfold post_all in
        rw (post_all_taken qs (post q s).1 attempts.1 left)
          (at_most_one (is_success (post q s).0), one_attempt q s attempts.0)
  ]
