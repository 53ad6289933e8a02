-- ===== src/Tests/Fees.antt =====
-- The theorems on fees, applied.
use text.Mathlib.TextPositions.{eq_refl}
use transact_go.Cache.{Cache}
use transact_go.Fees.Coherence.{IsCoherent, calculate_fee-IsCoherent}
use transact_go.Fees.Entities.{FeeRule}
use transact_go.Fees.Rules.{FeeStore, RuleKey, RuleTable, calculate_fee, ngn_internal}
use transact_go.Fees.Service.{FeeCalculationParams, calculate}
use transact_go.Prelude.{
  Bool, Option, [], arith, eq_iff, false, if◌then◌else◌, inl, none, refl, some, str_eq, true, ◌&&◌,
  ◌∷◌, ◌≡◌, ◌≢◌,
}
use transact_go.Prelude.Int.{pos}

abbrev same_key : RuleKey → RuleKey → Bool
same_key (a, b) (c, d) = str_eq a c && str_eq b d

same_key_refl : (k : RuleKey) → same_key k k ≡ true
same_key_refl (a, b) = ground (arith, eq_refl a, eq_refl b)

same_key-ne : (j k : RuleKey) → j ≢ k → same_key j k ≡ false
same_key-ne (a, b) (c, d) ne = ground (arith, eq_iff a c, eq_iff b d)

-- A cache that forgets nothing.
abbrev map_cache : Cache RuleKey FeeRule
map_cache = record {
  State = RuleKey → Option FeeRule;
  get = λ k s. s k;
  set = λ k v ttl s. λ j. if same_key j k then some v else s j;
  del = λ k s. λ j. if same_key j k then none else s j;
  get-set = λ k v ttl s. inl (rw (same_key_refl k) refl);
  get-set_ne = λ j k v ttl s ne. inl (rw (same_key-ne j k ne) refl);
  get-del = λ k s. rw (same_key_refl k) refl;
  get-del_ne = λ j k s ne. inl (rw (same_key-ne j k ne) refl);
}

abbrev seeded : RuleTable
seeded = record { rules = ngn_internal 1 ∷ []; next_id = 2 }

abbrev cold_store : FeeStore map_cache
cold_store = record { table = seeded; cache = λ k. none }

cold_store-IsCoherent : IsCoherent map_cache cold_store
cold_store-IsCoherent = record { agrees = λ k r e. cc }

abbrev send : FeeCalculationParams
send = record { amount = pos 400_000; currency = "NGN"; transaction_type = "internal" }

calculate_fee-IsCoherent_example :
    ((calculate_fee map_cache send cold_store).0 ≡ calculate (some (ngn_internal 1)) send)
    × IsCoherent map_cache (calculate_fee map_cache send cold_store).1
calculate_fee-IsCoherent_example =
    calculate_fee-IsCoherent map_cache send cold_store cold_store-IsCoherent
