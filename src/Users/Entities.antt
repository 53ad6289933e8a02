-- ===== src/Users/Entities.antt =====
-- src/modules/users/entities/user.entity.ts. `updatedAt` is not read and left out.
use transact_go.Prelude.{Bool, Option, String, false, ltb, none, some, true, ℕ}

pub data UserStatus : Type 0 where
  pending active suspended closed : UserStatus

-- A numeric enumeration: `level` is the number.
pub data KycTier : Type 0 where
  unverified tier_1 tier_2 tier_3 : KycTier

abbrev pub level : KycTier → ℕ
level unverified = 0
level tier_1 = 1
level tier_2 = 2
level tier_3 = 3

abbrev pub is_unverified : KycTier → Bool
is_unverified unverified = true
is_unverified _ = false

pub record User : Type 0 where
  pub id : ℕ
  pub email : String
  pub first_name : String
  pub last_name : String
  pub password_hash : String
  pub status : UserStatus
  pub kyc_tier : KycTier
  pub refresh_token_hash : Option String
  pub phone : Option String
  pub failed_login_attempts : ℕ
  pub locked_until : Option ℕ
  pub last_login_at : Option ℕ
  pub created_at : ℕ

-- The getter `isLocked`, at a time.
unfoldable pub is_locked : ℕ → User → Bool
is_locked now u = elim u.locked_until [ none ↦ false | some until ↦ ltb now until ]
