-- ===== src/Admin/Lists.antt =====
-- The routes of src/modules/admin/admin.module.ts that list users, wallets, submissions and alerts.
use mathlib.Core.List.{reverse}
use transact_go.Audit.Service.{AuditAction, AuditLog, AuditTrail, get_logs}
use transact_go.Auth.Service.{AuthDb}
use transact_go.Fees.Entities.{FeeRule}
use transact_go.Fees.Rules.{RuleTable}
use transact_go.Fraud.Entities.{FraudAlert, FraudRule}
use transact_go.Fraud.State.{FraudDb, Sql}
use transact_go.Kyc.Entities.{KycStatus, KycSubmission}
use transact_go.Prelude.{
  Bool, List, Option, String, false, if◌then◌else◌, map, none, not, select, some, str_eq, true, ℕ,
  ◌==◌,
}
use transact_go.Prelude.Paging.{Page, page_of}
use transact_go.Prelude.Rows.{find_row}
use transact_go.Users.Entities.{KycTier, User, UserStatus}
use transact_go.Wallets.Entities.{Wallet}
use transact_go.Wallets.Service.{Bank}

abbrev pub status_name : UserStatus → String
status_name UserStatus.pending = "pending"
status_name UserStatus.active = "active"
status_name UserStatus.suspended = "suspended"
status_name UserStatus.closed = "closed"

pub record UserSummary : Type 0 where
  pub id : ℕ
  pub email : String
  pub first_name : String
  pub last_name : String
  pub status : UserStatus
  pub kyc_tier : KycTier
  pub created_at : ℕ

abbrev pub summary_of : User → UserSummary
summary_of u = record {
  id = u.id;
  email = u.email;
  first_name = u.first_name;
  last_name = u.last_name;
  status = u.status;
  kyc_tier = u.kyc_tier;
  created_at = u.created_at;
}

abbrev pub status_is : Option UserStatus → User → Bool
status_is none u = true
status_is (some s) u = str_eq (status_name u.status) (status_name s)

unfoldable pub list_users : ℕ → ℕ → Option UserStatus → AuthDb → Page UserSummary
list_users page limit status db =
    page_of (map summary_of (select (status_is status) db.users)) page limit

-- Oldest first; a table holds the newest first.
abbrev pub get_wallets_of_user : ℕ → Bank → List Wallet
get_wallets_of_user user_id b = reverse (select (λ w. w.user_id == user_id) b.wallets)

abbrev pub awaits_review : KycSubmission → Bool
awaits_review s = elim s.status [ KycStatus.pending ↦ true | _ ↦ false ]

abbrev pub get_pending_kyc : List KycSubmission → List KycSubmission
get_pending_kyc submissions = reverse (select awaits_review submissions)

abbrev pub is_reviewed : Option Bool → FraudAlert → Bool
is_reviewed none a = true
is_reviewed (some b) a = if b then a.reviewed else not a.reviewed

unfoldable pub list_fraud_alerts : {R C : Type 0} → Option Bool → ℕ → FraudDb R C → Page FraudAlert
list_fraud_alerts reviewed page db = page_of (select (is_reviewed reviewed) db.alerts) page 20

-- The columns of `getUser`; `updatedAt` is left out.
pub record UserDetail : Type 0 where
  pub summary : UserSummary
  pub failed_login_attempts : ℕ
  pub last_login_at : Option ℕ

abbrev pub detail_of : User → UserDetail
detail_of u = record {
  summary = summary_of u;
  failed_login_attempts = u.failed_login_attempts;
  last_login_at = u.last_login_at;
}

unfoldable pub get_user : ℕ → AuthDb → Option UserDetail
get_user id db = elim (find_row User.id id db.users) [ none ↦ none | some u ↦ some (detail_of u) ]

abbrev pub list_fraud_rules : {R C : Type 0} → Sql → FraudDb R C → List FraudRule
list_fraud_rules sql db = sql.by_priority db.rules

-- No limit is passed on.
unfoldable pub get_audit_logs :
    {M : Type 0}
    → (user_id : Option ℕ) → Option AuditAction
    → (from to : Option ℕ) → ℕ
    → AuditTrail M
    → Page (AuditLog M)
get_audit_logs user_id action from to page trail =
    get_logs
      (record {
        user_id = user_id;
        action = action;
        resource_type = none;
        from = from;
        to = to;
        page = some page;
        limit = none;
      })
      trail

-- `sorted` is the order by currency and transaction type, which the database makes.
abbrev pub list_fee_rules : (sorted : List FeeRule → List FeeRule) → RuleTable → List FeeRule
list_fee_rules sorted table = sorted table.rules
