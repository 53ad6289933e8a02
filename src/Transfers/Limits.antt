-- ===== src/Transfers/Limits.antt =====
-- The daily limit of a KYC tier in src/modules/transfers/transfers.service.ts, and the currency
-- that it is counted in.
use text.Mathlib.TextPositions.{eq_refl}
use transact_go.Outcome.{ok}
use transact_go.Prelude.{
  All, Bool-cases, List, [], arith, false, inl, inr, leb, none, refl, some, str_eq, true, ℕ, ◌<◌,
  ◌==◌, ◌∷◌, ◌≡◌, ◌≢◌, ◌≤◌,
}
use transact_go.Prelude.Int.{int_laws, ltb_ℤ, not_below, pos, zero_plus, ℤ, ◌+ℤ◌, ◌<ℤ◌, ◌≤ℤ◌}
use transact_go.Prelude.Rows.{find_row, update_row-none}
use transact_go.Transfers.Atomicity.{settled}
use transact_go.Transfers.Conservation.{internal_transfer-inv}
use transact_go.Transfers.Entities.{Transfer}
use transact_go.Transfers.Service.{
  FeeSchedule, InternalTransferDto, assert_within_daily_limit, completed_at_time, daily_limit,
  daily_total, internal_transfer, validate_internal,
}
use transact_go.Transfers.Store.{Db, find_user}
use transact_go.Users.Entities.{KycTier, User, is_unverified}
use transact_go.Wallets.Entities.{Wallet, code}
use transact_go.Wallets.Service.{find_wallet}

find_row-unused :
    (n : ℕ) (t : List Transfer) → All (λ x. x.id < n) t → find_row Transfer.id n t ≡ none
find_row-unused n [] h = refl
find_row-unused n (x ∷ t) h = ground (arith, find_row-unused n t h.1)

module _ (fees : FeeSchedule) (start_of_day : ℕ → ℕ) (user : ℕ) (dto : InternalTransferDto)
    (db : Db) where
  abbrev midnight : ℕ
  midnight = start_of_day db.bank.now

  -- The new row is the only one that the transaction changes, and it counts.
  settled-daily_total :
      (w v : Wallet)
      → All (λ t. t.id < db.next_id) db.transfers
      → midnight ≤ db.bank.now
      → daily_total user dto.currency midnight (settled fees user dto db w v)
        ≡ dto.amount +ℤ daily_total user dto.currency midnight db
  settled-daily_total w v fresh early =
      let key : (db.next_id == db.next_id) ≡ true = ground arith in
      let mine : (user == user) ≡ true = ground arith in
      let today : leb midnight db.bank.now ≡ true = ground arith in
      let old : find_row Transfer.id db.next_id db.transfers ≡ none =
        find_row-unused db.next_id db.transfers fresh in
      rw (
        key,
        update_row-none Transfer.id db.next_id (completed_at_time fees db.bank.now) db.transfers
            old,
        mine,
        eq_refl dto.currency,
        today,
      )

  within_limit-ok :
      (tier : KycTier) (limit : ℤ)
      → daily_limit tier ≡ some limit
      → assert_within_daily_limit start_of_day user dto.amount dto.currency tier db ≡ (ok tt, db)
      → daily_total user dto.currency midnight db +ℤ dto.amount ≤ℤ limit
  unfolding assert_within_daily_limit
  within_limit-ok tier limit e passed =
      elim (Bool-cases (ltb_ℤ limit (daily_total user dto.currency midnight db +ℤ dto.amount))) [
        | inl over ↦ ground arith
        | inr under ↦
            not_below limit (daily_total user dto.currency midnight db +ℤ dto.amount) under
      ]

  -- After an internal transfer that returns, what the user has sent on this day in the currency of
  -- the request, this transfer included, is within the limit of the user's tier, if it has one.
  -- The next key must be above those of the transfers, and midnight not after the present time.
  pub internal_transfer-within_limit :
      (u : User) (limit : ℤ) (t : Transfer) (db' : Db)
      → All (λ t. t.id < db.next_id) db.transfers
      → midnight ≤ db.bank.now
      → find_user user db ≡ some u
      → daily_limit u.kyc_tier ≡ some limit
      → internal_transfer fees start_of_day user dto db ≡ (ok t, db')
      → daily_total user dto.currency midnight db' ≤ℤ limit
  internal_transfer-within_limit u limit t db' fresh early found tier e =
      elim (internal_transfer-inv fees start_of_day user dto db) [
        | inl (x, refused) ↦ cc (e, refused)
        | inr (w, v, d, u', checks, debits, credits, done) ↦
            let after : db' ≡ settled fees user dto db w v = cc (e, done) in
            let same : u' ≡ u = cc (checks.user_found, found) in
            let passed : assert_within_daily_limit start_of_day user dto.amount dto.currency
                  u.kyc_tier db
                ≡ (ok tt, db) =
              rw same at checks.limited in
            rw (after, settled-daily_total w v fresh early)
              (omega (int_laws, within_limit-ok u.kyc_tier limit tier passed))
      ]

-- The limit binds each currency text of the requests alone, and the request chooses the text: what
-- is sent between two wallets of one currency passes the checks under any text in which the user
-- has sent nothing today, whatever was sent today from the same wallet under another text.
pub validate_internal_other_currency :
    (start_of_day : ℕ → ℕ) (user : ℕ) (dto : InternalTransferDto) (db : Db) (s d : Wallet)
    (u : User) (limit : ℤ)
    → find_wallet dto.source_wallet_id db.bank ≡ some s
    → find_wallet dto.destination_wallet_id db.bank ≡ some d
    → find_user user db ≡ some u
    → s.user_id ≡ user
    → s.id ≢ d.id
    → s.currency ≡ d.currency
    → pos 0 <ℤ dto.amount
    → is_unverified u.kyc_tier ≡ false
    → daily_limit u.kyc_tier ≡ some limit
    → dto.amount ≤ℤ limit
    → daily_total user dto.currency (start_of_day db.bank.now) db ≡ pos 0
    → validate_internal start_of_day user dto db ≡ (ok tt, db)
unfolding validate_internal assert_within_daily_limit
validate_internal_other_currency start_of_day user dto db s d u limit sf df uf owner apart same
      positive verified tier small unused =
    let one : str_eq (code s.currency) (code d.currency) ≡ true =
      rw same (eq_refl (code d.currency)) in
    let under : ltb_ℤ limit (pos 0 +ℤ dto.amount) ≡ false = rw zero_plus (ground arith) in
    ground arith
