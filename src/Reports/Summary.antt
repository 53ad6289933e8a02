-- ===== src/Reports/Summary.antt =====
-- src/modules/reports/reports.service.ts: `getUserSummary`. A record that is indexed by a text is the
-- list of its fields in the order of their first assignment.
use transact_go.Prelude.{
  Bool, List, String, [], if◌then◌else◌, leb, length, select, str_eq, ℕ, ◌&&◌, ◌+◌, ◌==◌, ◌∷◌,
}
use transact_go.Prelude.Int.{pos, ℤ, ◌+ℤ◌}
use transact_go.Transfers.Entities.{
  Transfer, TransferStatus, TransferType, cancelled, deposit_type, internal_transfer_type,
  processing, reversed, withdrawal_type,
}
use transact_go.Transfers.Store.{Db}

abbrev pub status_text : TransferStatus → String
status_text TransferStatus.pending = "pending"
status_text processing = "processing"
status_text TransferStatus.completed = "completed"
status_text TransferStatus.failed = "failed"
status_text reversed = "reversed"
status_text cancelled = "cancelled"

abbrev pub type_text : TransferType → String
type_text internal_transfer_type = "internal"
type_text deposit_type = "deposit"
type_text withdrawal_type = "withdrawal"

pub record CurrencyTotals : Type 0 where
  pub count : ℕ
  pub volume : ℤ
  pub fees : ℤ

pub record TransactionSummary : Type 0 where
  pub period_from : ℕ
  pub period_to : ℕ
  pub total_transfers : ℕ
  pub total_volume : ℤ
  pub total_fees : ℤ
  pub by_status : List (String × ℕ)
  pub by_type : List (String × ℕ)
  pub by_currency : List (String × CurrencyTotals)

-- `fields[k] = update(fields[k] ?? start)`
abbrev pub put_field : {V : Type 0} → String → V → (V → V) → List (String × V) → List (String × V)
put_field k start update [] = (k, update start) ∷ []
put_field k start update ((j, v) ∷ rest) =
    if str_eq j k then (j, update v) ∷ rest else (j, v) ∷ put_field k start update rest

abbrev pub no_totals : CurrencyTotals
no_totals = record { count = 0; volume = pos 0; fees = pos 0 }

abbrev pub add_transfer : Transfer → CurrencyTotals → CurrencyTotals
add_transfer t c = record {
  count = c.count + 1;
  volume = c.volume +ℤ t.amount;
  fees = c.fees +ℤ t.fee;
}

-- One round of the loop.
abbrev pub summarise : TransactionSummary → Transfer → TransactionSummary
summarise s t = record s {
  by_status = put_field (status_text t.status) 0 (λ n. n + 1) s.by_status;
  by_type = put_field (type_text t.type) 0 (λ n. n + 1) s.by_type;
  by_currency = put_field t.currency no_totals (add_transfer t) s.by_currency;
  total_volume = s.total_volume +ℤ t.amount;
  total_fees = s.total_fees +ℤ t.fee;
}

unfoldable pub summarise_all : TransactionSummary → List Transfer → TransactionSummary
summarise_all s [] = s
summarise_all s (t ∷ ts) = summarise_all (summarise s t) ts

abbrev pub in_summary : ℕ → ℕ → ℕ → Transfer → Bool
in_summary user_id from to t =
    t.user_id == user_id && (leb from t.created_at && leb t.created_at to)

-- The query gives no order: the rows come as the table has them.
unfoldable pub get_user_summary : ℕ → ℕ → ℕ → Db → TransactionSummary
unfolding summarise_all
get_user_summary user_id from to db =
    let transfers = select (in_summary user_id from to) db.transfers in
    summarise_all
      (record {
        period_from = from;
        period_to = to;
        total_transfers = length transfers;
        total_volume = pos 0;
        total_fees = pos 0;
        by_status = [];
        by_type = [];
        by_currency = [];
      })
      transfers
