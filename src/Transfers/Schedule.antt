-- ===== src/Transfers/Schedule.antt =====
-- The fees of src/modules/fees/fees.service.ts as a schedule for the transfers: `calculate` after
-- a lookup of sane rules.
use transact_go.Fees.Bounds.{IsSane, calculate_total}
use transact_go.Fees.Entities.{FeeRule}
use transact_go.Fees.Service.{calculate}
use transact_go.Prelude.{Option, String, some, ◌≡◌}
use transact_go.Prelude.Int.{int_laws}
use transact_go.Transfers.Service.{FeeSchedule}

-- A lookup that is a function of the currency and the kind of the transaction: what
-- `getActiveRule` is through a coherent cache.
abbrev pub rule_schedule :
    (lookup : String → String → Option FeeRule)
    → ((currency kind : String) (r : FeeRule) → lookup currency kind ≡ some r → IsSane r)
    → FeeSchedule
rule_schedule lookup sane = record {
  calculate = λ p. calculate (lookup p.currency p.transaction_type) p;
  total_nonneg = λ p.
      let (base, vat, total, lines) =
        calculate_total (lookup p.currency p.transaction_type) p
          (λ r found. sane p.currency p.transaction_type r found) in
      rw total (omega (int_laws, base, vat));
}
