-- ===== src/Fees/Rules.antt =====
-- src/modules/fees/fees.service.ts: `getActiveRule`, `invalidateFeeCache` and `seedDefaultRules`,
-- over the table of rules and the cache. The cache is a parameter. Its key
-- `fee_rule:<currency>:<transactionType>` is the pair of the two texts.
-- Among active rules of the highest priority the query leaves the choice open: here the newest.
use transact_go.Cache.{Cache}
use transact_go.Fees.Entities.{FeeRule, FeeType, flat, tiered}
use transact_go.Fees.Service.{FeeBreakdown, FeeCalculationParams, calculate}
use transact_go.Prelude.{
  Bool, List, Option, String, [], false, find, if◌then◌else◌, is_some, ltb, none, not, select, some,
  str_eq, true, ℕ, ◌&&◌, ◌+◌, ◌∷◌,
}
use transact_go.Prelude.Int.{pos}

abbrev pub RuleKey : Type 0
RuleKey = String × String

abbrev pub matches_key : RuleKey → FeeRule → Bool
matches_key (currency, kind) r =
    str_eq r.currency currency && str_eq r.transaction_type kind && r.is_active

abbrev pub higher : FeeRule → Option FeeRule → Option FeeRule
higher r none = some r
higher r (some s) = if ltb r.priority s.priority then some s else some r

-- `findOne({ where: …, order: { priority: 'DESC' } })`
abbrev pub highest : List FeeRule → Option FeeRule
highest [] = none
highest (r ∷ rs) = higher r (highest rs)

abbrev pub best_rule : RuleKey → List FeeRule → Option FeeRule
best_rule key rules = highest (select (matches_key key) rules)

pub record RuleTable : Type 0 where
  pub rules : List FeeRule
  pub next_id : ℕ

-- `currency && transactionType`: an empty text counts as missing.
abbrev pub given : Option String → Bool
given none = false
given (some s) = not (str_eq s "")

module _ (C : Cache RuleKey FeeRule) where
  -- The state that the service reads and writes: the rules, and the cache.
  pub record FeeStore : Type 0 where
    pub table : RuleTable
    pub cache : C.State

  abbrev pub look_up_rule : RuleKey → FeeStore → Option FeeRule → Option FeeRule × FeeStore
  look_up_rule key s (some cached) = (some cached, s)
  look_up_rule key s none = elim (best_rule key s.table.rules) [
    | some rule ↦ (some rule, record s { cache = C.set key rule 300_000 s.cache })
    | none ↦ (none, s)
  ]

  unfoldable pub get_active_rule : String → String → FeeStore → Option FeeRule × FeeStore
  get_active_rule currency kind s = look_up_rule (currency, kind) s (C.get (currency, kind) s.cache)

  abbrev drop_key : Option String → Option String → FeeStore → FeeStore
  drop_key (some currency) (some kind) s = record s { cache = C.del (currency, kind) s.cache }
  drop_key _ _ s = s

  unfoldable pub invalidate_fee_cache : Option String → Option String → FeeStore → FeeStore
  invalidate_fee_cache currency kind s =
      if given currency && given kind then drop_key currency kind s else s

  -- The whole of `calculate`, the rule read through the cache.
  unfoldable pub calculate_fee : FeeCalculationParams → FeeStore → FeeBreakdown × FeeStore
  unfolding get_active_rule
  calculate_fee params s =
      let (rule, s') = get_active_rule params.currency params.transaction_type s in
      (calculate rule params, s')

-- A column that the seeds leave out takes the default of its entity.
abbrev pub column_defaults : ℕ → FeeRule
column_defaults id = record {
  id = id;
  name = "";
  rule_code = "";
  currency = "";
  transaction_type = "";
  fee_type = flat;
  flat_amount = pos 0;
  percentage = 0;
  cap = none;
  floor = none;
  tier_config = none;
  tax_rate = 0;
  min_transfer_amount = pos 0;
  max_transfer_amount = none;
  is_active = true;
  priority = 0;
}

abbrev pub ngn_internal : ℕ → FeeRule
ngn_internal id = record (column_defaults id) {
  name = "NGN Internal Transfer Fee (NIP)";
  rule_code = "NGN_INTERNAL_TRANSFER";
  currency = "NGN";
  transaction_type = "internal";
  fee_type = tiered;
  tax_rate = 750;
  tier_config = some (
      record { min_amount = pos 0; max_amount = some (pos 500_000); flat_fee = pos 1000 }
      ∷ record { min_amount = pos 500_001; max_amount = some (pos 5_000_000); flat_fee = pos 2500 }
      ∷ record { min_amount = pos 5_000_001; max_amount = none; flat_fee = pos 5000 }
      ∷ []);
  cap = some (pos 5000);
  priority = 10;
}

abbrev pub usd_withdrawal : ℕ → FeeRule
usd_withdrawal id = record (column_defaults id) {
  name = "USD External Withdrawal Fee";
  rule_code = "USD_WITHDRAWAL";
  currency = "USD";
  transaction_type = "withdrawal";
  fee_type = FeeType.percentage;
  percentage = 15_000;
  floor = some (pos 100);
  cap = some (pos 5000);
  priority = 10;
}

abbrev pub ngn_deposit : ℕ → FeeRule
ngn_deposit id = record (column_defaults id) {
  name = "NGN Deposit (Free)";
  rule_code = "NGN_DEPOSIT";
  currency = "NGN";
  transaction_type = "deposit";
  fee_type = flat;
  priority = 10;
}

abbrev pub has_code : String → FeeRule → Bool
has_code c r = str_eq r.rule_code c

-- One round of the loop of `seedDefaultRules`.
abbrev pub seed_rule : (ℕ → FeeRule) → RuleTable → RuleTable
seed_rule make t =
    let row : FeeRule = make t.next_id in
    if is_some (find (has_code row.rule_code) t.rules)
    then t
    else record { rules = row ∷ t.rules; next_id = t.next_id + 1 }

unfoldable pub seed_rules : List (ℕ → FeeRule) → RuleTable → RuleTable
seed_rules [] t = t
seed_rules (make ∷ rest) t = seed_rules rest (seed_rule make t)

unfoldable pub seed_default_rules : RuleTable → RuleTable
unfolding seed_rules
seed_default_rules = seed_rules (ngn_internal ∷ usd_withdrawal ∷ ngn_deposit ∷ [])
