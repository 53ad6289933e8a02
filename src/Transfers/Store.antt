-- ===== src/Transfers/Store.antt =====
-- The state that transfers and payments share: the bank, the table `transfers`, the users, and
-- what is handed to other parts of the system, the questions to the fraud service, the jobs of the
-- queue `payments`, notifications and audit entries. A log or a queue holds the newest first.
use Prim.Native.String.{count}
use transact_go.Fraud.Entities.{FraudCheckParams}
use transact_go.Outcome.{Exec, column_too_long, gets, internal, ok, throw_if, ◌>>=◌, ◌>>◌}
use transact_go.Prelude.{Bool, List, Option, String, leb, none, not, some, true, ℕ, ◌&&◌, ◌+◌, ◌∷◌}
use transact_go.Prelude.Int.{ℤ}
use transact_go.Prelude.Rows.{find_row, update_row}
use transact_go.Transfers.Entities.{Transfer}
use transact_go.Users.Entities.{User}
use transact_go.Wallets.Service.{Bank}

pub data PaymentJob : Type 0 where
  process_deposit :
      (transfer_id user_id wallet_id : ℕ) (amount : ℤ) (currency provider : String)
      (customer_email : String)
      → PaymentJob
  process_withdrawal :
      (transfer_id user_id : ℕ) (amount : ℤ) (currency provider : String) → PaymentJob

pub data Notification : Type 0 where
  transfer_sent : (user_id : ℕ) (amount : ℤ) (currency : String) → Notification
  transfer_received : (user_id : ℕ) (amount : ℤ) (currency source : String) → Notification

pub data AuditEntry : Type 0 where
  transfer_init : (user_id transfer_id : ℕ) → AuditEntry
  transfer_complete : (user_id transfer_id : ℕ) → AuditEntry
  transfer_fail : (user_id transfer_id : ℕ) → AuditEntry

-- A call of `evaluate` of src/modules/fraud/fraud.service.ts, with the transfers and the time that it
-- found. The alerts and counters that the fraud service keeps come from these calls.
pub record Evaluation : Type 0 where
  pub params : FraudCheckParams
  pub transfers : List Transfer
  pub now : ℕ

pub record Db : Type 0 where
  pub bank : Bank
  pub transfers : List Transfer
  pub users : List User
  pub next_id : ℕ
  pub evaluations : List Evaluation
  pub jobs : List PaymentJob
  pub notifications : List Notification
  pub audit : List AuditEntry

-- An operation of the wallets service inside the transaction of its caller.
abbrev pub on_bank : {A : Type 0} → Exec Bank A → Exec Db A
on_bank m db = let (r, b) = m db.bank in (r, record db { bank = b })

abbrev pub find_transfer : ℕ → Db → Option Transfer
find_transfer k db = find_row Transfer.id k db.transfers

abbrev pub find_user : ℕ → Db → Option User
find_user k db = find_row User.id k db.users

abbrev pub fits : ℕ → Option String → Bool
fits n none = true
fits n (some s) = leb (count s) n

-- The columns of the table that have a length.
unfoldable pub fits_columns : Transfer → Bool
fits_columns t = leb (count t.currency) 3 && (fits 100 t.reference && fits 255 t.narration)

abbrev pub insert_transfer : Transfer → Exec Db Transfer
insert_transfer row db =
    (ok row, record db { transfers = row ∷ db.transfers; next_id = db.next_id + 1 })

-- The database refuses a text that is longer than its column. A text that is too long by spaces at
-- its end, which Postgres cuts off, counts as too long.
abbrev pub save_transfer : (ℕ → ℕ → Transfer) → Exec Db Transfer
save_transfer make = do
  row ← gets (λ db. make db.next_id db.bank.now)
  throw_if (not (fits_columns row)) (internal column_too_long)
  insert_transfer row

abbrev pub update_transfer : ℕ → (Transfer → Transfer) → Exec Db (Unit {0})
update_transfer k f db = (ok tt, record db { transfers = update_row Transfer.id k f db.transfers })
