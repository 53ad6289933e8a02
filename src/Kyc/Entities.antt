-- ===== src/Kyc/Entities.antt =====
-- src/modules/kyc/entities/kyc-submission.entity.ts and dto/kyc.dto.ts. `providerResponse` is
-- written by nothing, and `updatedAt` is not read: both are left out.
use transact_go.Prelude.{Bool, Option, String, false, true, ℕ}
use transact_go.Users.Entities.{KycTier}

pub data KycStatus : Type 0 where
  pending approved rejected expired : KycStatus

pub data DocumentType : Type 0 where
  nin bvn passport drivers_lic voters_card proof_of_address : DocumentType

pub record KycSubmission : Type 0 where
  pub id : ℕ
  pub user_id : ℕ
  pub target_tier : KycTier
  pub status : KycStatus
  pub document_type : DocumentType
  pub document_reference : Option String
  pub document_number : Option String
  pub rejection_reason : Option String
  pub reviewed_by : Option String
  pub reviewed_at : Option ℕ
  pub created_at : ℕ

pub record SubmitKycDto : Type 0 where
  pub target_tier : KycTier
  pub document_type : DocumentType
  pub document_number : Option String
  pub document_reference : Option String

abbrev pub is_waiting_status : KycStatus → Bool
is_waiting_status pending = true
is_waiting_status _ = false
