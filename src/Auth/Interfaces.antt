-- ===== src/Auth/Interfaces.antt =====
-- What src/modules/auth/auth.service.ts calls: `bcrypt`, with the salt that `hash` draws as an
-- argument, and the signing of tokens by `JwtService`, at a time.
-- `effective` is the part of a text that bcrypt reads: its documentation says that only the first
-- 72 bytes are used.
use transact_go.Prelude.{Bool, String, false, str_eq, true, ℕ, ◌≡◌}
use transact_go.Users.Entities.{KycTier}

pub record Bcrypt : Type 0 where
  pub hash : ℕ → String → String
  pub compare : String → String → Bool
  pub effective : String → String
  pub compare-hash :
      (x y : String) (salt : ℕ) → effective x ≡ effective y → compare x (hash salt y) ≡ true
  pub hash_nonempty : (salt : ℕ) (x : String) → str_eq (hash salt x) "" ≡ false

pub record JwtPayload : Type 0 where
  pub sub : ℕ
  pub email : String
  pub kyc_tier : KycTier

pub record Jwt : Type 0 where
  pub sign_access : JwtPayload → ℕ → String
  pub sign_refresh : JwtPayload → ℕ → String
