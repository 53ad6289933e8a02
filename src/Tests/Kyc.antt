-- ===== src/Tests/Kyc.antt =====
-- The theorems on identity verification, applied to one user with two submissions.
use transact_go.Kyc.Approval.{process_result_last}
use transact_go.Kyc.Entities.{KycStatus, KycSubmission, SubmitKycDto, bvn, nin}
use transact_go.Kyc.Pending.{IsSingle, submit_kyc-IsSingle}
use transact_go.Kyc.Service.{KycDb, process_result, submit_kyc}
use transact_go.Prelude.{[], arith, none, refl, some, true, ◌∷◌, ◌≡◌}
use transact_go.Prelude.Rows.{find_row}
use transact_go.Tests.Fixtures.{payer}
use transact_go.Users.Entities.{User, tier_2, tier_3}

abbrev first_tier : KycSubmission
first_tier = record {
  id = 20;
  user_id = 7;
  target_tier = tier_2;
  status = KycStatus.pending;
  document_type = bvn;
  document_reference = none;
  document_number = none;
  rejection_reason = none;
  reviewed_by = none;
  reviewed_at = none;
  created_at = 60;
}

abbrev top_tier : KycSubmission
top_tier = record first_tier { id = 21; target_tier = tier_3 }

abbrev kyc_db : KycDb
kyc_db = record {
  submissions = top_tier ∷ first_tier ∷ [];
  users = payer ∷ [];
  next_id = 22;
  now = 1000;
  jobs = [];
}

kyc_db-IsSingle : IsSingle kyc_db.submissions
kyc_db-IsSingle = (λ w. refl, (λ w. refl, tt))

abbrev resubmission : SubmitKycDto
resubmission = record {
  target_tier = tier_2;
  document_type = nin;
  document_number = none;
  document_reference = none;
}

submit_kyc-IsSingle_example : IsSingle (submit_kyc true 7 resubmission kyc_db).1.submissions
submit_kyc-IsSingle_example = submit_kyc-IsSingle true 7 resubmission kyc_db kyc_db-IsSingle

process_result_last_example :
    find_row User.id 7 (process_result 20 true none (process_result 21 true none kyc_db)).users
    ≡ some (record payer { kyc_tier = tier_2 })
process_result_last_example =
    process_result_last 21 20 none none top_tier first_tier payer kyc_db refl refl
      (λ e. ground arith) refl refl refl
