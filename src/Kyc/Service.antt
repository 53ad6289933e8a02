-- ===== src/Kyc/Service.antt =====
-- src/modules/kyc/kyc.service.ts, with the job of kyc.processor.ts, which draws the outcome at random
-- and hands it to `processResult`: here the outcome is an argument.
use transact_go.Kyc.Entities.{
  KycStatus, KycSubmission, SubmitKycDto, approved, is_waiting_status, rejected,
}
use transact_go.Outcome.{
  Exec, already_at_tier, conflict, err, forbidden, gets, internal, not_found, ok, or_throw, pure,
  queue_unavailable, submission_pending, throw_if, user_not_found, ◌>>=◌, ◌>>◌,
}
use transact_go.Prelude.{
  Bool, List, Option, String, find, if◌then◌else◌, is_some, leb, none, select, some, str_eq, ℕ,
  ◌&&◌, ◌+◌, ◌==◌, ◌∷◌,
}
use transact_go.Prelude.Rows.{find_row, update_row}
use transact_go.Ratio.{Ratio, above_share}
use transact_go.Users.Entities.{KycTier, User, level}

pub record KycJob : Type 0 where
  pub submission_id : ℕ
  pub user_id : ℕ
  pub target_tier : KycTier

pub record KycDb : Type 0 where
  pub submissions : List KycSubmission
  pub users : List User
  pub next_id : ℕ
  pub now : ℕ
  pub jobs : List KycJob

-- `where: { userId, targetTier, status: In([PENDING]) }`
abbrev pub is_waiting : ℕ → KycTier → KycSubmission → Bool
is_waiting user tier s =
    s.user_id == user && level s.target_tier == level tier && is_waiting_status s.status

abbrev pub new_submission : ℕ → SubmitKycDto → ℕ → ℕ → KycSubmission
new_submission user_id dto id now = record {
  id = id;
  user_id = user_id;
  target_tier = dto.target_tier;
  status = KycStatus.pending;
  document_type = dto.document_type;
  document_reference = dto.document_reference;
  document_number = dto.document_number;
  rejection_reason = none;
  reviewed_by = none;
  reviewed_at = none;
  created_at = now;
}

abbrev pub save_submission : (ℕ → ℕ → KycSubmission) → Exec KycDb KycSubmission
save_submission make db =
    let row : KycSubmission = make db.next_id db.now in
    (ok row, record db { submissions = row ∷ db.submissions; next_id = db.next_id + 1 })

abbrev pub add_kyc_job : Bool → KycJob → Exec KycDb (Unit {0})
add_kyc_job queue_up job db =
    if queue_up
    then (ok tt, record db { jobs = job ∷ db.jobs })
    else (err (internal queue_unavailable), db)

unfoldable pub submit_kyc : Bool → ℕ → SubmitKycDto → Exec KycDb KycSubmission
submit_kyc queue_up user_id dto = do
  found ← gets (λ db. find_row User.id user_id db.users)
  user ← or_throw found (not_found user_not_found)
  throw_if (leb (level dto.target_tier) (level user.kyc_tier)) (forbidden already_at_tier)
  existing ← gets (λ db. find (is_waiting user_id dto.target_tier) db.submissions)
  throw_if (is_some existing) (conflict submission_pending)
  submission ← save_submission (new_submission user_id dto)
  add_kyc_job queue_up
      (record { submission_id = submission.id; user_id = user_id; target_tier = dto.target_tier })
  pure submission

abbrev pub approve_row : ℕ → KycSubmission → KycSubmission
approve_row now s = record s {
  status = approved;
  reviewed_at = some now;
  reviewed_by = some "automated_system";
}

-- `reason || 'Document verification failed'`
abbrev pub reason_or : Option String → String
reason_or none = "Document verification failed"
reason_or (some s) = if str_eq s "" then "Document verification failed" else s

abbrev pub reject_row : Option String → ℕ → KycSubmission → KycSubmission
reject_row reason now s = record s {
  status = rejected;
  rejection_reason = some (reason_or reason);
  reviewed_at = some now;
}

abbrev pub set_tier : KycTier → User → User
set_tier tier u = record u { kyc_tier = tier }

unfoldable pub review : Bool → Option String → KycSubmission → KycDb → KycDb
review is_approved reason s db =
    if is_approved
    then (record db {
      submissions = update_row KycSubmission.id s.id (approve_row db.now) db.submissions;
      users = update_row User.id s.user_id (set_tier s.target_tier) db.users;
    })
    else (record db {
      submissions = update_row KycSubmission.id s.id (reject_row reason db.now) db.submissions;
    })

abbrev pub review_found : Bool → Option String → Option KycSubmission → KycDb → KycDb
review_found is_approved reason none db = db
review_found is_approved reason (some s) db = review is_approved reason s db

unfoldable pub process_result : ℕ → Bool → Option String → KycDb → KycDb
unfolding review
process_result id is_approved reason db =
    review_found is_approved reason (find_row KycSubmission.id id db.submissions) db

-- `handleVerification` of src/modules/kyc/kyc.processor.ts: `rand` is what `Math.random()` returns.
unfoldable pub handle_verification : Ratio → KycJob → KycDb → KycDb
unfolding process_result
handle_verification rand job db =
    let is_approved = above_share rand 5 100 in
    process_result job.submission_id is_approved
      (if is_approved then none else some "Could not verify document authenticity") db

unfoldable pub get_user_submissions : ℕ → KycDb → List KycSubmission
get_user_submissions user_id db = select (λ s. s.user_id == user_id) db.submissions
