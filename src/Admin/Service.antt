-- ===== src/Admin/Service.antt =====
-- The handlers of src/modules/admin/admin.module.ts. Each works on the table of another module and on
-- the audit trail; `write_fails` says whether the write to the trail fails.
use transact_go.Admin.Dto.{
  AdminMetadata, CreateFeeRuleDto, CreateFraudRuleDto, FreezeWalletDto, OverrideKycTierDto,
  ReviewFraudAlertDto, SuspendUserDto, UpdateFeeRuleDto, UpdateFraudRuleDto, activate_metadata,
  create_rule_metadata, freeze_metadata, suspend_metadata, tier_metadata, update_rule_metadata,
}
use transact_go.Admin.Rows.{change_fee_rule, change_fraud_rule, fee_rule_of, fraud_rule_of}
use transact_go.Audit.Service.{
  AuditAction, AuditTrail, LogEventParams, admin_action, fee_rule_update, log_event,
}
use transact_go.Auth.Service.{AuthDb, update_user}
use transact_go.Cache.{Cache}
use transact_go.Fees.Entities.{FeeRule}
use transact_go.Fees.Rules.{FeeStore, RuleKey, invalidate_fee_cache}
use transact_go.Fraud.Entities.{FraudAlert, FraudRule}
use transact_go.Fraud.State.{FraudDb}
use transact_go.Kyc.Entities.{KycSubmission}
use transact_go.Prelude.{
  Bool, List, Option, String, if◌then◌else◌, none, not, some, true, ℕ, ◌+◌, ◌∷◌,
}
use transact_go.Prelude.Rows.{find_row, update_row}
use transact_go.Users.Entities.{User, UserStatus}
use transact_go.Wallets.Entities.{Wallet, frozen}
use transact_go.Wallets.Service.{Bank}

abbrev pub admin_event :
    AuditAction
    → Option ℕ
    → Option String
    → Option ℕ
    → AdminMetadata
    → ℕ
    → LogEventParams AdminMetadata
admin_event action user_id resource_type resource_id metadata actor_id = record {
  action = action;
  user_id = user_id;
  resource_type = resource_type;
  resource_id = resource_id;
  metadata = some metadata;
  actor_id = some actor_id;
  req = none;
}

pub record AdminDb (F : Cache RuleKey FeeRule) (R C : Type 0) : Type 0 where
  pub auth : AuthDb
  pub bank : Bank
  pub fees : FeeStore F
  pub fraud : FraudDb R C
  pub submissions : List KycSubmission
  pub trail : AuditTrail AdminMetadata

-- `AdminGuard.canActivate`: any user that is logged in passes.
abbrev pub admin_can_activate : (is_admin_route : Bool) → (user_present : Bool) → Bool
admin_can_activate is_admin_route user_present = if not is_admin_route then true else user_present

module _ (F : Cache RuleKey FeeRule) where
  -- The rows and the cache, without the audit trail.
  unfoldable pub save_fee_rule : CreateFeeRuleDto → FeeStore F → FeeStore F
  unfolding invalidate_fee_cache
  save_fee_rule dto s =
      invalidate_fee_cache F (some dto.currency) (some dto.transaction_type) (record s {
        table = record {
          rules = fee_rule_of dto s.table.next_id ∷ s.table.rules;
          next_id = s.table.next_id + 1;
        };
      })

  abbrev pub invalidate_rule : Option FeeRule → FeeStore F → FeeStore F
  invalidate_rule none s = s
  invalidate_rule (some r) s = invalidate_fee_cache F (some r.currency) (some r.transaction_type) s

  unfoldable pub store_fee_rule : ℕ → UpdateFeeRuleDto → FeeStore F → Option FeeRule × FeeStore F
  unfolding invalidate_fee_cache
  store_fee_rule id dto s =
      let rules = update_row FeeRule.id id (change_fee_rule dto) s.table.rules in
      let updated = find_row FeeRule.id id rules in
      (updated, invalidate_rule updated (record s { table = record s.table { rules = rules } }))

module _ (F : Cache RuleKey FeeRule) (R C : Type 0) (write_fails : Bool) where
  abbrev pub Admin : Type 0
  Admin = AdminDb F R C

  abbrev pub write_audit : LogEventParams AdminMetadata → Admin → Admin
  write_audit p db = record db { trail = log_event write_fails db.auth.now p db.trail }

  abbrev pub change_user : ℕ → (User → User) → Admin → Admin
  change_user id f db = record db { auth = (update_user id f db.auth).1 }

  unfoldable pub suspend_user : ℕ → ℕ → SuspendUserDto → Admin → Admin
  unfolding log_event
  suspend_user id actor_id body db =
      write_audit
        (admin_event admin_action (some id) none none (suspend_metadata body.reason) actor_id)
        (change_user id (λ u. record u { status = UserStatus.suspended }) db)

  unfoldable pub activate_user : ℕ → ℕ → Admin → Admin
  unfolding log_event
  activate_user id actor_id db =
      write_audit (admin_event admin_action (some id) none none activate_metadata actor_id) (
        change_user id
          (λ u. record u {
            status = UserStatus.active;
            failed_login_attempts = 0;
            locked_until = none;
          })
          db)

  unfoldable pub override_kyc_tier : ℕ → ℕ → OverrideKycTierDto → Admin → Admin
  unfolding log_event
  override_kyc_tier id actor_id body db =
      write_audit
        (admin_event admin_action (some id) none none (tier_metadata body.tier body.reason)
          actor_id)
        (change_user id (λ u. record u { kyc_tier = body.tier }) db)

  unfoldable pub freeze_wallet : ℕ → ℕ → FreezeWalletDto → Admin → Admin
  unfolding log_event
  freeze_wallet id actor_id body db =
      write_audit
        (admin_event AuditAction.wallet_freeze none (some "wallet") (some id)
          (freeze_metadata body.reason) actor_id)
        (record db {
          bank = record db.bank {
            wallets = update_row Wallet.id id (λ w. record w { status = frozen }) db.bank.wallets;
          };
        })

  unfoldable pub create_fee_rule : CreateFeeRuleDto → ℕ → Admin → FeeRule × Admin
  unfolding save_fee_rule log_event
  create_fee_rule dto actor_id db =
      let rule = fee_rule_of dto db.fees.table.next_id in
      (
        rule,
        write_audit
            (admin_event fee_rule_update none (some "fee_rule") (some rule.id)
              (create_rule_metadata dto) actor_id)
            (record db { fees = save_fee_rule F dto db.fees }),
      )

  unfoldable pub update_fee_rule : ℕ → UpdateFeeRuleDto → ℕ → Admin → Option FeeRule × Admin
  unfolding store_fee_rule log_event
  update_fee_rule id dto actor_id db =
      let (updated, fees) = store_fee_rule F id dto db.fees in
      (
        updated,
        write_audit
            (admin_event fee_rule_update none (some "fee_rule") (some id) (update_rule_metadata dto)
              actor_id)
            (record db { fees = fees }),
      )

  unfoldable pub create_fraud_rule : CreateFraudRuleDto → Admin → Admin
  create_fraud_rule dto db = record db {
    fraud = record db.fraud {
      rules = fraud_rule_of dto db.fraud.next_id db.fraud.now ∷ db.fraud.rules;
      next_id = db.fraud.next_id + 1;
    };
  }

  unfoldable pub update_fraud_rule : ℕ → UpdateFraudRuleDto → Admin → Admin
  update_fraud_rule id dto db = record db {
    fraud = record db.fraud {
      rules = update_row FraudRule.id id (change_fraud_rule dto) db.fraud.rules;
    };
  }

  unfoldable pub review_fraud_alert : ℕ → String → ReviewFraudAlertDto → Admin → Admin
  review_fraud_alert id actor_id body db = record db {
    fraud = record db.fraud {
      alerts =
          update_row FraudAlert.id id
            (λ a. record a {
              reviewed = true;
              reviewed_by = some actor_id;
              review_notes = some body.notes;
            })
            db.fraud.alerts;
    };
  }
