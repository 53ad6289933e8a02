-- ===== src/Fraud/Gate.antt =====
-- What the payments service sees of src/modules/fraud/fraud.service.ts: `evaluate` returns or throws,
-- and on both ways it keeps what it has found: the database holds every question to it.
use transact_go.Fraud.Entities.{FraudCheckParams}
use transact_go.Outcome.{Exec, err, forbidden, fraud_blocked, ok}
use transact_go.Prelude.{Bool, if◌then◌else◌, ◌∷◌}
use transact_go.Transfers.Store.{Db}

-- Whether `evaluate` throws, for these parameters in this state of the database, which holds the
-- questions before.
pub record FraudGate : Type 0 where
  pub blocks : FraudCheckParams → Db → Bool

abbrev pub asked : FraudCheckParams → Db → Db
asked p db = record db {
  evaluations = record { params = p; transfers = db.transfers; now = db.bank.now } ∷ db.evaluations;
}

abbrev pub evaluate : FraudGate → FraudCheckParams → Exec Db (Unit {0})
evaluate gate p db = (if gate.blocks p db then err (forbidden fraud_blocked) else ok tt, asked p db)
