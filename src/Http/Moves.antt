-- ===== src/Http/Moves.antt =====
-- What a request to `POST /transfers/internal` (src/modules/transfers/transfers.controller.ts) does to
-- the money, from its token to its response.
use mathlib.Core.Path.{subst}
use transact_go.Auth.Service.{AuthUser}
use transact_go.Http.Runs.{IsDeclined, IsSignedIn, Ran, route-inv}
use transact_go.Http.Transfers.{
  HttpRequest, HttpResponse, accepted, post_internal_transfer, respond_result, success,
}
use transact_go.Idempotency.Interceptor.{Server}
use transact_go.Outcome.{Reason, Result, err, ok}
use transact_go.Prelude.{String, ap, inl, inr, refl, sym, ℕ, ◌∙◌, ◌≡◌, ◌≤◌, ◌⊎◌}
use transact_go.Prelude.Rows.{IsKeyed}
use transact_go.Transfers.Conservation.{
  Settles, internal_transfer-Settles, internal_transfer_atomic,
}
use transact_go.Transfers.Entities.{Transfer}
use transact_go.Transfers.Service.{FeeSchedule, InternalTransferDto, internal_transfer}
use transact_go.Transfers.Store.{Db}
use transact_go.Users.Entities.{level, tier_1}
use transact_go.Wallets.Entities.{Wallet}
use transact_go.Wallets.Preserved.{run}

module _ (id_text : ℕ → String) (text : Reason → String) (fees : FeeSchedule) (start_of_day : ℕ → ℕ)
    (q : HttpRequest InternalTransferDto) (s : Server Transfer Db) where
  abbrev pub posted : HttpResponse × Server Transfer Db
  posted = post_internal_transfer id_text text fees start_of_day q s

  -- A request that is answered by the transfer that it made.
  pub record IsMade : Type 0 where
    pub user : AuthUser
    pub dto : InternalTransferDto
    pub transfer : Transfer
    pub signed_in : IsSignedIn s.app.users q.token user
    pub verified : 1 ≤ level user.kyc_tier
    pub body : q.body ≡ accepted dto
    pub response : posted.0 ≡ success 201 transfer
    pub settles : Settles fees start_of_day user.id dto s.app posted.1.app

  respond_end : Result Transfer → HttpResponse
  respond_end = respond_result id_text text tier_1 (internal_transfer fees start_of_day) s.now q

  service_end :
      (run : Ran id_text text tier_1 (internal_transfer fees start_of_day) q s posted)
      (r : Result Transfer) (db : Db)
      → internal_transfer fees start_of_day run.user.id run.dto s.app ≡ (r, db)
      → IsKeyed Wallet.id s.app.bank.wallets
      → (IsDeclined posted.0 × (posted.1.app ≡ s.app)) ⊎ IsMade
  unfolding respond_end
  service_end run (err e) db ends keyed =
      let answer : posted.0 ≡ respond_end (err e) = run.response ∙ ap (λ x. respond_end x.0) ends in
      inl (
        subst IsDeclined (sym answer) tt,
        run.after
            ∙ ap (λ x. x.1) ends
            ∙ internal_transfer_atomic fees start_of_day run.user.id run.dto s.app e db ends,
      )
  service_end run (ok t) db ends keyed =
      let after : posted.1.app ≡ db = run.after ∙ ap (λ x. x.1) ends in
      inr (record {
        user = run.user;
        dto = run.dto;
        transfer = t;
        signed_in = run.signed_in;
        verified = run.has_tier;
        body = run.body;
        response = run.response ∙ ap (λ x. respond_end x.0) ends;
        settles =
            subst (Settles fees start_of_day run.user.id run.dto s.app) (sym after) (
              internal_transfer-Settles fees start_of_day run.user.id run.dto s.app t db keyed
                ends);
      })

  -- In a bank in which no two wallets share a key, a request for an internal transfer either is not
  -- answered with a transfer, and then the database is as it was, whatever error or stored response
  -- the client got; or its token is that of a user who exists, is neither suspended nor closed and
  -- has at least the first tier, its body was accepted, and the transfer of the body has been
  -- settled for this user.
  pub post_internal_transfer-IsMade :
      IsKeyed Wallet.id s.app.bank.wallets → (IsDeclined posted.0 × (posted.1.app ≡ s.app)) ⊎ IsMade
  unfolding post_internal_transfer
  post_internal_transfer-IsMade keyed =
      elim (route-inv id_text text tier_1 (internal_transfer fees start_of_day) q s) [
        | inl idle ↦ inl idle
        | inr run ↦
            service_end run (internal_transfer fees start_of_day run.user.id run.dto s.app).0
              (internal_transfer fees start_of_day run.user.id run.dto s.app).1 refl keyed
      ]
