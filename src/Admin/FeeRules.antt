-- ===== src/Admin/FeeRules.antt =====
-- Changes of fee rules by src/modules/admin/admin.module.ts, against the cache of the rules.
use mathlib.Core.Path.{subst}
use transact_go.Admin.Dto.{CreateFeeRuleDto, UpdateFeeRuleDto}
use transact_go.Admin.Rows.{change_fee_rule, fee_rule_of}
use transact_go.Admin.Service.{
  AdminDb, create_fee_rule, invalidate_rule, save_fee_rule, store_fee_rule, update_fee_rule,
}
use transact_go.Cache.{Cache}
use transact_go.Fees.Coherence.{
  IsCoherent, calculate_fee-IsCoherent, invalidate_fee_cache-IsCoherent,
}
use transact_go.Fees.Entities.{FeeRule}
use transact_go.Fees.Rules.{FeeStore, RuleKey, best_rule, calculate_fee, highest, matches_key}
use transact_go.Fees.Service.{FeeCalculationParams, calculate}
use transact_go.Prelude.{
  All, Bool, Bool-cases, List, Option, Option-cases, [], ap, arith, eq_iff, false, inl, inr, none,
  refl, select, some, str_eq, sym, ℕ, ◌==◌, ◌∷◌, ◌≡◌, ◌≢◌,
}
use transact_go.Prelude.Rows.{
  All-find_row, IsKeyed, find_row, find_row-update_self, update_row, update_row-none,
}

module _ (F : Cache RuleKey FeeRule) where
  abbrev pub key_of : FeeRule → RuleKey
  key_of r = (r.currency, r.transaction_type)

  matches_key-ne : (j : RuleKey) (r : FeeRule) → j ≢ key_of r → matches_key j r ≡ false
  matches_key-ne (c, k) r ne = elim (Bool-cases (matches_key (c, k) r)) [
    | inr out ↦ out
    | inl fits ↦
        let c_same : c ≡ r.currency = sym ((eq_iff r.currency c).0 (ground arith)) in
        let k_same : k ≡ r.transaction_type =
          sym ((eq_iff r.transaction_type k).0 (ground arith)) in
        absurd (ne (λ i. (c_same i, k_same i)))
  ]

  -- Another row does not change the best rule of the other keys.
  best_rule-cons :
      (j : RuleKey) (r : FeeRule) (rules : List FeeRule)
      → j ≢ key_of r
      → best_rule j (r ∷ rules) ≡ best_rule j rules
  best_rule-cons j r rules ne = rw (matches_key-ne j r ne) refl

  -- A new rule for a currency and a type that are not empty leaves a coherent cache coherent.
  pub save_fee_rule-IsCoherent :
      (dto : CreateFeeRuleDto) (s : FeeStore F)
      → IsCoherent F s
      → str_eq dto.currency "" ≡ false
      → str_eq dto.transaction_type "" ≡ false
      → IsCoherent F (save_fee_rule F dto s)
  unfolding save_fee_rule
  save_fee_rule-IsCoherent dto s h c k =
      invalidate_fee_cache-IsCoherent F dto.currency dto.transaction_type _ s h c k
        (λ j ne. best_rule-cons j (fee_rule_of dto s.table.next_id) s.table.rules ne)

  select-update :
      (j : RuleKey) (id : ℕ) (f : FeeRule → FeeRule) (rules : List FeeRule) (r : FeeRule)
      → IsKeyed FeeRule.id rules
      → find_row FeeRule.id id rules ≡ some r
      → matches_key j r ≡ false
      → matches_key j (f r) ≡ false
      → select (matches_key j) (update_row FeeRule.id id f rules) ≡ select (matches_key j) rules
  select-update j id f [] r keyed found out out' = refl
  select-update j id f (x ∷ rules) r keyed found out out' = elim (Bool-cases (x.id == id)) [
    | inl here ↦
        let same : x ≡ r = ground arith in
        let none_left : find_row FeeRule.id id rules ≡ none = ground arith in
        rw (here, update_row-none FeeRule.id id f rules none_left, same, out, out') refl
    | inr later ↦
        let rest : select (matches_key j) (update_row FeeRule.id id f rules)
            ≡ select (matches_key j) rules =
          select-update j id f rules r keyed.1 (rw later at found) out out' in
        rw (later, rest) refl
  ]

  -- The rules after a change, with the cache invalidated for the row that is found.
  abbrev Settled : ℕ → FeeStore F → List FeeRule → Option FeeRule → Type 0
  Settled id s rules found =
      IsCoherent F (invalidate_rule F found (record s { table = record s.table { rules = rules } }))

  store_fee_rule-none :
      (id : ℕ) (dto : UpdateFeeRuleDto) (s : FeeStore F)
      → IsCoherent F s
      → find_row FeeRule.id id s.table.rules ≡ none
      → IsCoherent F (store_fee_rule F id dto s).1
  unfolding store_fee_rule
  store_fee_rule-none id dto s h e =
      subst (λ rules. Settled id s rules (find_row FeeRule.id id rules))
        (sym (update_row-none FeeRule.id id (change_fee_rule dto) s.table.rules e))
        (subst (Settled id s s.table.rules) (sym e) h)

  store_fee_rule_found :
      (id : ℕ) (dto : UpdateFeeRuleDto) (s : FeeStore F) (r : FeeRule)
      → IsCoherent F s
      → IsKeyed FeeRule.id s.table.rules
      → find_row FeeRule.id id s.table.rules ≡ some r
      → (str_eq r.currency "" ≡ false) × (str_eq r.transaction_type "" ≡ false)
      → IsCoherent F (store_fee_rule F id dto s).1
  unfolding store_fee_rule
  store_fee_rule_found id dto s r h keyed e (c, k) =
      let rules : List FeeRule = update_row FeeRule.id id (change_fee_rule dto) s.table.rules in
      subst (Settled id s rules)
        (sym
          (find_row-update_self FeeRule.id id (change_fee_rule dto) s.table.rules r (λ u. refl) e))
        (invalidate_fee_cache-IsCoherent F r.currency r.transaction_type
          (record s.table { rules = rules }) s h c k
          (λ j ne. ap highest (
            select-update j id (change_fee_rule dto) s.table.rules r keyed e (matches_key-ne j r ne)
              (matches_key-ne j (change_fee_rule dto r) ne))))

  -- In a table of rules with keys of their own, whose currencies and types are not empty: any change
  -- of a rule that the administration can make, and one of a rule that does not exist, leaves a
  -- coherent cache coherent.
  pub store_fee_rule-IsCoherent :
      (id : ℕ) (dto : UpdateFeeRuleDto) (s : FeeStore F)
      → IsCoherent F s
      → IsKeyed FeeRule.id s.table.rules
      → All
          (λ r. (str_eq r.currency "" ≡ false) × (str_eq r.transaction_type "" ≡ false))
          s.table.rules
      → IsCoherent F (store_fee_rule F id dto s).1
  store_fee_rule-IsCoherent id dto s h keyed texts =
      elim (Option-cases (find_row FeeRule.id id s.table.rules)) [
        | inl gone ↦ store_fee_rule-none id dto s h gone
        | inr (r, e) ↦ store_fee_rule_found id dto s r h keyed e (
            All-find_row FeeRule.id
              (λ x. (str_eq x.currency "" ≡ false) × (str_eq x.transaction_type "" ≡ false)) id
              s.table.rules r texts e)
      ]

  -- In a table of rules with keys of their own, whose currencies and types are not empty, with a
  -- coherent cache: after any change of a rule by the administration, whether the rule exists or not,
  -- the next fee is that of the best rule of the table as it has become.
  pub calculate_fee-update_fee_rule :
      {R C : Type 0} (write_fails : Bool) (id : ℕ) (dto : UpdateFeeRuleDto) (actor : ℕ)
      (p : FeeCalculationParams) (db : AdminDb F R C)
      → IsCoherent F db.fees
      → IsKeyed FeeRule.id db.fees.table.rules
      → All
          (λ r. (str_eq r.currency "" ≡ false) × (str_eq r.transaction_type "" ≡ false))
          db.fees.table.rules
      → let after = (update_fee_rule F R C write_fails id dto actor db).1.fees in
        (calculate_fee F p after).0
        ≡ calculate (best_rule (p.currency, p.transaction_type) after.table.rules) p
  unfolding update_fee_rule
  calculate_fee-update_fee_rule write_fails id dto actor p db h keyed texts =
      (calculate_fee-IsCoherent F p (store_fee_rule F id dto db.fees).1
        (store_fee_rule-IsCoherent id dto db.fees h keyed texts)).0

  -- With a coherent cache, the next fee after a rule is created for a currency and a type that are not
  -- empty is that of the best rule of the table as it has become.
  pub calculate_fee-create_fee_rule :
      {R C : Type 0} (write_fails : Bool) (dto : CreateFeeRuleDto) (actor : ℕ)
      (p : FeeCalculationParams) (db : AdminDb F R C)
      → IsCoherent F db.fees
      → str_eq dto.currency "" ≡ false
      → str_eq dto.transaction_type "" ≡ false
      → let after = (create_fee_rule F R C write_fails dto actor db).1.fees in
        (calculate_fee F p after).0
        ≡ calculate (best_rule (p.currency, p.transaction_type) after.table.rules) p
  unfolding create_fee_rule
  calculate_fee-create_fee_rule write_fails dto actor p db h c k =
      (calculate_fee-IsCoherent F p (save_fee_rule F dto db.fees)
        (save_fee_rule-IsCoherent dto db.fees h c k)).0
