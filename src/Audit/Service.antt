-- ===== src/Audit/Service.antt =====
-- src/modules/audit/audit.service.ts and its entity. `M` is what the JSON column `metadata` holds.
use Prim.Native.Char.{Char, code}
use transact_go.Prelude.{
  Bool, List, Option, String, [], drop, false, if◌then◌else◌, leb, length, min, none, select, some,
  str_eq, suc, take, true, zero, ℕ, ◌&&◌, ◌*◌, ◌+◌, ◌-◌, ◌==◌, ◌||◌, ◌∷◌,
}
use transact_go.Prelude.Paging.{Page, ceil_div}
use transact_go.Prelude.Texts.{split}

pub data AuditAction : Type 0 where
  user_register user_login user_logout user_login_fail : AuditAction
  kyc_submit kyc_approved kyc_rejected : AuditAction
  wallet_create wallet_freeze : AuditAction
  transfer_initiated transfer_completed transfer_failed transfer_reversed : AuditAction
  fraud_flagged fraud_was_blocked : AuditAction
  fee_rule_update admin_action : AuditAction

-- The value of the enumeration.
abbrev pub action_text : AuditAction → String
action_text user_register = "user.register"
action_text user_login = "user.login"
action_text user_logout = "user.logout"
action_text user_login_fail = "user.login_failed"
action_text kyc_submit = "kyc.submit"
action_text kyc_approved = "kyc.approved"
action_text kyc_rejected = "kyc.rejected"
action_text wallet_create = "wallet.create"
action_text wallet_freeze = "wallet.freeze"
action_text transfer_initiated = "transfer.initiated"
action_text transfer_completed = "transfer.completed"
action_text transfer_failed = "transfer.failed"
action_text transfer_reversed = "transfer.reversed"
action_text fraud_flagged = "fraud.flagged"
action_text fraud_was_blocked = "fraud.blocked"
action_text fee_rule_update = "fee_rule.updated"
action_text admin_action = "admin.action"

-- The headers `x-forwarded-for` and `user-agent` of a request, and the address of its socket.
pub record RequestOrigin : Type 0 where
  pub forwarded_for : Option String
  pub remote_address : Option String
  pub user_agent : Option String

-- White space in JavaScript.
abbrev pub is_space : Char → Bool
is_space c =
    let n = code c in
    leb 9 n && leb n 13
    || (n == 32
        || (n == 160
            || (n == 5760
                || (leb 8192 n && leb n 8202
                    || (n == 8232
                        || (n == 8233
                            || (n == 8239 || (n == 8287 || (n == 12288 || n == 65279)))))))))

unfoldable pub trim_start : String → String
trim_start String.[] = ""
trim_start (String.◌∷◌ c s) = if is_space c then trim_start s else String.◌∷◌ c s

unfoldable pub trim_end : String → String
trim_end String.[] = ""
trim_end (String.◌∷◌ c s) =
    let rest = trim_end s in if is_space c && str_eq rest "" then "" else String.◌∷◌ c rest

-- The first part before a comma, trimmed.
abbrev pub first_address : List String → Option String
unfolding trim_start trim_end
first_address [] = none
first_address (p ∷ _) = some (trim_end (trim_start p))

-- `a || b`, for texts that may be missing.
abbrev pub or_other : Option String → Option String → Option String
or_other none o = o
or_other (some s) o = if str_eq s "" then o else some s

abbrev pub or_unknown : Option String → String
or_unknown none = "unknown"
or_unknown (some s) = if str_eq s "" then "unknown" else s

abbrev pub forwarded_address : Option String → Option String
unfolding split trim_start trim_end
forwarded_address none = none
forwarded_address (some h) = first_address (split 44 h)

unfoldable pub extract_ip : RequestOrigin → String
unfolding split trim_start trim_end
extract_ip r = or_unknown (or_other (forwarded_address r.forwarded_for) r.remote_address)

-- `s.substring(0, n)`, for a header, which has one byte to a character.
unfoldable pub first_chars : ℕ → String → String
first_chars zero s = ""
first_chars (suc n) String.[] = ""
first_chars (suc n) (String.◌∷◌ c s) = String.◌∷◌ c (first_chars n s)

abbrev pub ip_address_of : Option RequestOrigin → Option String
unfolding extract_ip
ip_address_of none = none
ip_address_of (some r) = some (extract_ip r)

abbrev pub user_agent_of : Option RequestOrigin → Option String
unfolding first_chars
user_agent_of none = none
user_agent_of (some r) = elim r.user_agent [ none ↦ none | some a ↦ some (first_chars 512 a) ]

pub record LogEventParams (M : Type 0) : Type 0 where
  pub action : AuditAction
  pub user_id : Option ℕ
  pub resource_type : Option String
  pub resource_id : Option ℕ
  pub metadata : Option M
  pub actor_id : Option ℕ
  pub req : Option RequestOrigin

pub record AuditLog (M : Type 0) : Type 0 where
  pub id : ℕ
  pub action : AuditAction
  pub user_id : Option ℕ
  pub resource_type : Option String
  pub resource_id : Option ℕ
  pub metadata : Option M
  pub ip_address : Option String
  pub user_agent : Option String
  pub actor_id : Option ℕ
  pub created_at : ℕ

pub record AuditTrail (M : Type 0) : Type 0 where
  pub logs : List (AuditLog M)
  pub next_id : ℕ

abbrev pub entry_of : {M : Type 0} → LogEventParams M → ℕ → ℕ → AuditLog M
entry_of p id now = record {
  id = id;
  action = p.action;
  user_id = p.user_id;
  resource_type = p.resource_type;
  resource_id = p.resource_id;
  metadata = p.metadata;
  ip_address = ip_address_of p.req;
  user_agent = user_agent_of p.req;
  actor_id = p.actor_id;
  created_at = now;
}

-- `log`: a write that fails is caught, and nothing else happens.
unfoldable pub log_event :
    {M : Type 0} → (write_fails : Bool) → (now : ℕ) → LogEventParams M → AuditTrail M → AuditTrail M
log_event write_fails now p trail =
    if write_fails
    then trail
    else record { logs = entry_of p trail.next_id now ∷ trail.logs; next_id = trail.next_id + 1 }

pub record LogFilters : Type 0 where
  pub user_id : Option ℕ
  pub action : Option AuditAction
  pub resource_type : Option String
  pub from : Option ℕ
  pub to : Option ℕ
  pub page : Option ℕ
  pub limit : Option ℕ

abbrev pub has_user : {M : Type 0} → Option ℕ → AuditLog M → Bool
has_user none l = true
has_user (some k) l = elim l.user_id [ none ↦ false | some u ↦ u == k ]

abbrev pub has_action : {M : Type 0} → Option AuditAction → AuditLog M → Bool
has_action none l = true
has_action (some a) l = str_eq (action_text l.action) (action_text a)

abbrev pub has_resource_type : {M : Type 0} → Option String → AuditLog M → Bool
has_resource_type none l = true
has_resource_type (some t) l =
    if str_eq t "" then true else elim l.resource_type [ none ↦ false | some r ↦ str_eq r t ]

-- Only a range that has both ends is a condition.
abbrev pub in_range : {M : Type 0} → Option ℕ → Option ℕ → AuditLog M → Bool
in_range (some from) (some to) l = leb from l.created_at && leb l.created_at to
in_range _ _ l = true

-- The `where` of the query.
abbrev pub in_logs : {M : Type 0} → LogFilters → AuditLog M → Bool
in_logs f l =
    has_user f.user_id l
    && (has_action f.action l && (has_resource_type f.resource_type l && in_range f.from f.to l))

abbrev pub or_given : Option ℕ → ℕ → ℕ
or_given none d = d
or_given (some n) d = n

-- `skip` and `pages` are computed with the limit as it was given, `take` with 200 at most.
unfoldable pub get_logs : {M : Type 0} → LogFilters → AuditTrail M → Page (AuditLog M)
get_logs f trail =
    let page = or_given f.page 1 in
    let limit = or_given f.limit 50 in
    let rows = select (in_logs f) trail.logs in
    record {
      entries = take (min limit 200) (drop ((page - 1) * limit) rows);
      total = length rows;
      page = page;
      pages = ceil_div (length rows) limit;
    }
