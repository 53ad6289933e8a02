-- ===== src/Transfers/Validation.antt =====
-- What the checks before the transaction of `internalTransfer` of
-- src/modules/transfers/transfers.service.ts ensure.
use transact_go.Outcome.{
  Exception, access_denied, bad_request, cross_currency, daily_limit_exceeded,
  destination_not_found, err, forbidden, kyc_required, not_found, ok, same_wallet, source_not_found,
  transfer_not_positive, user_not_found,
}
use transact_go.Prelude.{
  Bool-cases, Option-cases, arith, false, inl, inr, refl, some, str_eq, true, ℕ, ◌==◌, ◌≡◌, ◌≢◌,
  ◌⊎◌,
}
use transact_go.Prelude.Int.{leb_ℤ, ltb_ℤ, pos, ◌+ℤ◌, ◌<ℤ◌}
use transact_go.Transfers.Service.{
  InternalTransferDto, assert_within_daily_limit, daily_limit, daily_total, validate_internal,
}
use transact_go.Transfers.Store.{Db, find_user}
use transact_go.Users.Entities.{KycTier, User, is_unverified}
use transact_go.Wallets.Entities.{Wallet, code}
use transact_go.Wallets.Service.{find_wallet}

pub record Validated (start_of_day : ℕ → ℕ) (user_id : ℕ) (dto : InternalTransferDto) (db : Db)
    (source destination : Wallet) (user : User) : Type 0 where
  pub source_found : find_wallet dto.source_wallet_id db.bank ≡ some source
  pub destination_found : find_wallet dto.destination_wallet_id db.bank ≡ some destination
  pub user_found : find_user user_id db ≡ some user
  pub owner : source.user_id ≡ user_id
  pub distinct : source.id ≢ destination.id
  pub one_currency : str_eq (code source.currency) (code destination.currency) ≡ true
  pub positive : pos 0 <ℤ dto.amount
  pub verified : is_unverified user.kyc_tier ≡ false
  pub limited :
      assert_within_daily_limit start_of_day user_id dto.amount dto.currency user.kyc_tier db
      ≡ (ok tt, db)

module _ (start_of_day : ℕ → ℕ) (user_id : ℕ) (dto : InternalTransferDto) (db : Db) where
  pub assert_within_daily_limit-inv :
      (tier : KycTier)
      → ((x : Exception) × (assert_within_daily_limit start_of_day user_id dto.amount dto.currency
              tier db
            ≡ (err x, db)))
        ⊎ (assert_within_daily_limit start_of_day user_id dto.amount dto.currency tier db
            ≡ (ok tt, db))
  unfolding assert_within_daily_limit
  assert_within_daily_limit-inv tier = elim (Option-cases (daily_limit tier)) [
    | inl unlimited ↦ inr (rw unlimited refl)
    | inr (limit, e) ↦
        elim (Bool-cases (
          ltb_ℤ limit
            (daily_total user_id dto.currency (start_of_day db.bank.now) db +ℤ dto.amount))) [
              | inl over ↦ inl (forbidden daily_limit_exceeded, rw e (ground arith))
              | inr under ↦ inr (rw e (ground arith))
            ]
  ]

  -- The checks on the three rows that were found.
  validate_found :
      (s d : Wallet) (u : User)
      → find_wallet dto.source_wallet_id db.bank ≡ some s
      → find_wallet dto.destination_wallet_id db.bank ≡ some d
      → find_user user_id db ≡ some u
      → ((x : Exception) × (validate_internal start_of_day user_id dto db ≡ (err x, db)))
        ⊎ ((s : Wallet) × (d : Wallet) × (u : User) × Validated start_of_day user_id dto db s d u
            × (validate_internal start_of_day user_id dto db ≡ (ok tt, db)))
  unfolding validate_internal
  validate_found s d u source_found destination_found user_found =
      elim (Bool-cases (s.user_id == user_id)) [
        | inr stranger ↦ inl (forbidden access_denied, ground arith)
        | inl owner ↦ elim (Bool-cases (s.id == d.id)) [
          | inl same ↦ inl (bad_request same_wallet, ground arith)
          | inr distinct ↦ elim (Bool-cases (str_eq (code s.currency) (code d.currency))) [
            | inr cross ↦ inl (bad_request cross_currency, ground arith)
            | inl one ↦ elim (Bool-cases (leb_ℤ dto.amount (pos 0))) [
              | inl low ↦ inl (bad_request transfer_not_positive, ground arith)
              | inr positive ↦ elim (Bool-cases (is_unverified u.kyc_tier)) [
                | inl unverified_user ↦ inl (forbidden kyc_required, ground arith)
                | inr verified ↦ elim (assert_within_daily_limit-inv u.kyc_tier) [
                  | inl (x, over) ↦ inl (x, ground arith)
                  | inr within ↦ inr (
                    s,
                    d,
                    u,
                    record {
                      source_found = source_found;
                      destination_found = destination_found;
                      user_found = user_found;
                      owner = ground arith;
                      distinct = ground arith;
                      one_currency = one;
                      positive = ground arith;
                      verified = verified;
                      limited = within;
                    },
                    ground arith,
                  )
                ]
              ]
            ]
          ]
        ]
      ]

  -- Either the checks throw and change nothing, or every one of these holds.
  pub validate_internal-inv :
      ((x : Exception) × (validate_internal start_of_day user_id dto db ≡ (err x, db)))
      ⊎ ((s : Wallet) × (d : Wallet) × (u : User) × Validated start_of_day user_id dto db s d u
          × (validate_internal start_of_day user_id dto db ≡ (ok tt, db)))
  unfolding validate_internal
  validate_internal-inv = elim (Option-cases (find_wallet dto.source_wallet_id db.bank)) [
    | inl no_source ↦ inl (not_found source_not_found, ground arith)
    | inr (s, source_found) ↦ elim (Option-cases (find_wallet dto.destination_wallet_id db.bank)) [
      | inl no_destination ↦ inl (not_found destination_not_found, ground arith)
      | inr (d, destination_found) ↦ elim (Option-cases (find_user user_id db)) [
        | inl no_user ↦ inl (not_found user_not_found, ground arith)
        | inr (u, user_found) ↦ validate_found s d u source_found destination_found user_found
      ]
    ]
  ]
