-- ===== src/Kyc/Approval.antt =====
-- What a review of src/modules/kyc/kyc.service.ts does to the tier of the user.
use transact_go.Kyc.Entities.{KycSubmission}
use transact_go.Kyc.Service.{KycDb, approve_row, process_result, reject_row, review, set_tier}
use transact_go.Prelude.{
  Bool, Bool-cases, Option, Option-cases, String, false, inl, inr, none, refl, some, true, ℕ, ◌∙◌,
  ◌≡◌, ◌≢◌, ◌⊎◌,
}
use transact_go.Prelude.Rows.{find_row, find_row-key, find_row-update_ne, find_row-update_self}
use transact_go.Users.Entities.{User}

module _ (s : KycSubmission) (u : User) (db : KycDb) where
  -- An approval gives the user the tier of the submission.
  approved_user :
      (i : ℕ) (reason : Option String)
      → find_row KycSubmission.id i db.submissions ≡ some s
      → s.user_id ≡ u.id
      → find_row User.id u.id db.users ≡ some u
      → find_row User.id u.id (process_result i true reason db).users
        ≡ some (set_tier s.target_tier u)
  unfolding process_result review
  approved_user i reason found same user_found =
      rw (found, same)
        (find_row-update_self User.id u.id (set_tier s.target_tier) db.users u (λ x. refl)
          user_found)

-- Another submission is found as before.
other_submission :
    (i j : ℕ) (is_approved : Bool) (reason : Option String) (a b : KycSubmission) (db : KycDb)
    → find_row KycSubmission.id i db.submissions ≡ some a
    → find_row KycSubmission.id j db.submissions ≡ some b
    → j ≢ i
    → find_row KycSubmission.id j (process_result i is_approved reason db).submissions ≡ some b
unfolding process_result review
other_submission i j is_approved reason a b db found_a found_b ne =
    let key : a.id ≡ i = find_row-key KycSubmission.id i db.submissions a found_a in
    let apart : j ≢ a.id = λ e. ne (e ∙ key) in
    elim (Bool-cases is_approved) [
      | inl yes_a ↦
          rw (found_a, yes_a)
            (find_row-update_ne KycSubmission.id j a.id (approve_row db.now) db.submissions
                (λ x. refl) apart
              ∙ found_b)
      | inr no_a ↦
          rw (found_a, no_a)
            (find_row-update_ne KycSubmission.id j a.id (reject_row reason db.now) db.submissions
                (λ x. refl) apart
              ∙ found_b)
    ]

-- When two different submissions of one user, both in the table, are approved, the user is left with the tier of the one that is
-- approved last, whatever the tiers are: a higher tier that the first gave is taken back.
pub process_result_last :
    (i j : ℕ) (reason reason' : Option String) (a b : KycSubmission) (u : User) (db : KycDb)
    → find_row KycSubmission.id i db.submissions ≡ some a
    → find_row KycSubmission.id j db.submissions ≡ some b
    → j ≢ i
    → a.user_id ≡ u.id
    → b.user_id ≡ u.id
    → find_row User.id u.id db.users ≡ some u
    → find_row User.id u.id (process_result j true reason' (process_result i true reason db)).users
      ≡ some (record u { kyc_tier = b.target_tier })
process_result_last i j reason reason' a b u db found_a found_b ne mine_a mine_b user_found =
    approved_user b (set_tier a.target_tier u) (process_result i true reason db) j reason'
      (other_submission i j true reason a b db found_a found_b ne) mine_b
      (approved_user a u db i reason found_a mine_a user_found)

-- A rejection, and a job for a submission that is not there, leave every user as they were.
pub process_result_keeps :
    (i : ℕ) (is_approved : Bool) (reason : Option String) (db : KycDb)
    → (is_approved ≡ false) ⊎ (find_row KycSubmission.id i db.submissions ≡ none)
    → (process_result i is_approved reason db).users ≡ db.users
unfolding process_result review
process_result_keeps i is_approved reason db (inr missing) = rw missing refl
process_result_keeps i is_approved reason db (inl no_a) =
    elim (Option-cases (find_row KycSubmission.id i db.submissions)) [
      | inl missing ↦ rw missing refl
      | inr (s, found) ↦ rw (found, no_a) refl
    ]
