-- ===== src/Kyc/Pending.antt =====
-- The pending submissions of src/modules/kyc/kyc.service.ts.
use transact_go.Kyc.Entities.{KycSubmission, SubmitKycDto, is_waiting_status}
use transact_go.Kyc.Service.{
  KycDb, approve_row, is_waiting, process_result, reject_row, review, submit_kyc,
}
use transact_go.Prelude.{
  Bool, Bool-cases, List, Option, Option-cases, String, [], arith, false, find, if-false, if-true,
  inl, inr, leb, none, refl, some, sym, true, ℕ, ◌&&◌, ◌==◌, ◌∙◌, ◌∷◌, ◌≡◌,
}
use transact_go.Prelude.Rows.{find_row, update_row}
use transact_go.Users.Entities.{KycTier, User, level}

abbrev pub IsSingle : List KycSubmission → Type 0
IsSingle [] = Unit
IsSingle (s ∷ t) =
    (is_waiting_status s.status ≡ true → find (is_waiting s.user_id s.target_tier) t ≡ none)
    × IsSingle t

and_false : (p q : Bool) → q ≡ false → (p && q) ≡ false
and_false p q h = ground arith

-- Where a search fails, the head fails the test and the search of the rest fails.
find-none :
    (p : KycSubmission → Bool) (s : KycSubmission) (t : List KycSubmission)
    → find p (s ∷ t) ≡ none
    → (p s ≡ false) × (find p t ≡ none)
find-none p s t h = elim (Bool-cases (p s)) [
  | inl yes_p ↦ cc (h, if-true (p s) (some s) (find p t) yes_p)
  | inr no_p ↦ (no_p, sym (if-false (p s) (some s) (find p t) no_p) ∙ h)
]

module _ (k : ℕ) (f : KycSubmission → KycSubmission)
    (settles : (s : KycSubmission) → is_waiting_status (f s).status ≡ false) where
  find_waiting-update :
      (user : ℕ) (tier : KycTier) (t : List KycSubmission)
      → find (is_waiting user tier) t ≡ none
      → find (is_waiting user tier) (update_row KycSubmission.id k f t) ≡ none
  find_waiting-update user tier [] h = refl
  find_waiting-update user tier (s ∷ t) h =
      let (no_head, no_rest) = find-none (is_waiting user tier) s t h in
      let rest : find (is_waiting user tier) (update_row KycSubmission.id k f t) ≡ none =
        find_waiting-update user tier t no_rest in
      let settled_head : is_waiting user tier (f s) ≡ false =
        and_false ((f s).user_id == user && level (f s).target_tier == level tier)
          (is_waiting_status (f s).status) (settles s) in
      elim (Bool-cases (s.id == k)) [
        | inl here ↦ rw (here, settled_head) rest
        | inr later ↦ rw (later, no_head) rest
      ]

  -- A review settles its submission and starts none.
  update_row-IsSingle :
      (t : List KycSubmission) → IsSingle t → IsSingle (update_row KycSubmission.id k f t)
  update_row-IsSingle [] h = tt
  update_row-IsSingle (s ∷ t) h = elim (Bool-cases (s.id == k)) [
    | inl here ↦ rw here (λ w. cc (settles s, w), update_row-IsSingle t h.1)
    | inr later ↦
        rw later
          (λ w. find_waiting-update s.user_id s.target_tier t (h.0 w), update_row-IsSingle t h.1)
  ]

-- Where at most one submission is pending for each user and tier, a further submission, accepted or
-- refused, leaves it so.
pub submit_kyc-IsSingle :
    (queue_up : Bool) (user : ℕ) (dto : SubmitKycDto) (db : KycDb)
    → IsSingle db.submissions
    → IsSingle (submit_kyc queue_up user dto db).1.submissions
unfolding submit_kyc
submit_kyc-IsSingle queue_up user dto db h = elim (Option-cases (find_row User.id user db.users)) [
  | inl missing ↦ rw missing h
  | inr (u, found) ↦ elim (Bool-cases (leb (level dto.target_tier) (level u.kyc_tier))) [
    | inl reached ↦ rw (found, reached) h
    | inr below ↦ elim (Option-cases (find (is_waiting user dto.target_tier) db.submissions)) [
      | inr (s, waiting) ↦ rw (found, below, waiting) h
      | inl free ↦ elim (Bool-cases queue_up) [
        | inl up ↦ rw (found, below, free, up) (λ w. free, h)
        | inr down ↦ rw (found, below, free, down) (λ w. free, h)
      ]
    ]
  ]
]

-- Where at most one submission is pending for each user and tier, a review, whatever its outcome,
-- leaves it so.
pub process_result-IsSingle :
    (i : ℕ) (is_approved : Bool) (reason : Option String) (db : KycDb)
    → IsSingle db.submissions
    → IsSingle (process_result i is_approved reason db).submissions
unfolding process_result review
process_result-IsSingle i is_approved reason db h =
    elim (Option-cases (find_row KycSubmission.id i db.submissions)) [
      | inl missing ↦ rw missing h
      | inr (s, found) ↦ elim (Bool-cases is_approved) [
        | inl yes_a ↦
            rw (found, yes_a)
              (update_row-IsSingle s.id (approve_row db.now) (λ x. refl) db.submissions h)
        | inr no_a ↦
            rw (found, no_a)
              (update_row-IsSingle s.id (reject_row reason db.now) (λ x. refl) db.submissions h)
      ]
    ]
