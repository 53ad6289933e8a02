-- ===== src/Fees/Coherence.antt =====
-- The cache of fee rules of src/modules/fees/fees.service.ts against the table.
use transact_go.Cache.{Cache}
use transact_go.Fees.Entities.{FeeRule}
use transact_go.Fees.Rules.{
  FeeStore, RuleKey, RuleTable, best_rule, calculate_fee, get_active_rule, invalidate_fee_cache,
  look_up_rule,
}
use transact_go.Fees.Service.{FeeCalculationParams, calculate}
use transact_go.Prelude.{
  Option, Option-cases, String, ap, arith, eq_iff, false, inl, inr, none, refl, some, str_eq, sym,
  ℕ, ◌∙◌, ◌≡◌, ◌≢◌, ◌⊎◌,
}

pub key_cases : (j k : RuleKey) → (j ≡ k) ⊎ (j ≢ k)
key_cases (a, b) (c, d) = ground (arith, eq_iff a c, eq_iff b d)

module _ (C : Cache RuleKey FeeRule) where
  -- What the cache holds under a key is the rule that the table gives for it.
  pub record IsCoherent (s : FeeStore C) : Type 0 where
    pub agrees :
        (key : RuleKey) (r : FeeRule)
        → C.get key s.cache ≡ some r
        → best_rule key s.table.rules ≡ some r

  -- The entry that a lookup stores.
  set-IsCoherent :
      (k : RuleKey) (rule : FeeRule) (ttl : ℕ) (s : FeeStore C)
      → IsCoherent s
      → best_rule k s.table.rules ≡ some rule
      → IsCoherent (record s { cache = C.set k rule ttl s.cache })
  set-IsCoherent k rule ttl s h best = record {
    agrees = λ j r e. elim (key_cases j k) [
      | inl same ↦ elim (C.get-set k rule ttl s.cache) [
        | inl kept ↦
            let e' : C.get k (C.set k rule ttl s.cache) ≡ some r = rw same at e in
            rw same (best ∙ sym kept ∙ e')
        | inr gone ↦ cc (same, e, gone)
      ]
      | inr other ↦ elim (C.get-set_ne j k rule ttl s.cache other) [
        | inl kept ↦ h.agrees j r (sym kept ∙ e)
        | inr gone ↦ cc (e, gone)
      ]
    ];
  }

  look_up_rule-IsCoherent :
      (k : RuleKey) (s : FeeStore C) (cached : Option FeeRule)
      → IsCoherent s
      → C.get k s.cache ≡ cached
      → ((look_up_rule C k s cached).0 ≡ best_rule k s.table.rules)
        × IsCoherent (look_up_rule C k s cached).1
  look_up_rule-IsCoherent k s (some r) h e = (sym (h.agrees k r e), h)
  look_up_rule-IsCoherent k s none h e = elim (Option-cases (best_rule k s.table.rules)) [
    | inl nothing ↦ rw (nothing, look_up_rule) (refl, h)
    | inr (rule, best) ↦ rw (best, look_up_rule) (refl, set-IsCoherent k rule 300_000 s h best)
  ]

  -- A lookup through a coherent cache gives the best rule of the table and keeps the cache coherent.
  pub get_active_rule-IsCoherent :
      (currency kind : String) (s : FeeStore C)
      → IsCoherent s
      → ((get_active_rule C currency kind s).0 ≡ best_rule (currency, kind) s.table.rules)
        × IsCoherent (get_active_rule C currency kind s).1
  unfolding get_active_rule
  get_active_rule-IsCoherent currency kind s h =
      look_up_rule-IsCoherent (currency, kind) s (C.get (currency, kind) s.cache) h refl

  -- Through a coherent cache the fee is that of the best rule of the table.
  pub calculate_fee-IsCoherent :
      (p : FeeCalculationParams) (s : FeeStore C)
      → IsCoherent s
      → ((calculate_fee C p s).0
          ≡ calculate (best_rule (p.currency, p.transaction_type) s.table.rules) p)
        × IsCoherent (calculate_fee C p s).1
  unfolding calculate_fee
  calculate_fee-IsCoherent p s h =
      let c = get_active_rule-IsCoherent p.currency p.transaction_type s h in
      (ap (λ o. calculate o p) c.0, c.1)

  -- After any change of the table that leaves the best rule of every other key as it was,
  -- invalidating the key (two texts that are not empty) makes the cache agree with the new table.
  pub invalidate_fee_cache-IsCoherent :
      (currency kind : String) (t : RuleTable) (s : FeeStore C)
      → IsCoherent s
      → str_eq currency "" ≡ false
      → str_eq kind "" ≡ false
      → ((j : RuleKey) → j ≢ (currency, kind) → best_rule j t.rules ≡ best_rule j s.table.rules)
      → IsCoherent (invalidate_fee_cache C (some currency) (some kind) (record s { table = t }))
  unfolding invalidate_fee_cache
  invalidate_fee_cache-IsCoherent currency kind t s h c k others =
      rw (c, k)
        (record {
          agrees = λ j r e. elim (key_cases j (currency, kind)) [
            | inl same ↦ cc (same, e, C.get-del (currency, kind) s.cache)
            | inr other ↦ elim (C.get-del_ne j (currency, kind) s.cache other) [
              | inl kept ↦ others j other ∙ h.agrees j r (sym kept ∙ e)
              | inr gone ↦ cc (e, gone)
            ]
          ];
        })
