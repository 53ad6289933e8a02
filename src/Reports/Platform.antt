-- ===== src/Reports/Platform.antt =====
-- src/modules/reports/reports.service.ts: `getPlatformSummary`. `grouped` is what the database makes of
-- the rows of the query with `GROUP BY` and its aggregates, one row for a currency, type and status.
use transact_go.Prelude.{Bool, List, String, leb, select, ℕ, ◌&&◌}
use transact_go.Prelude.Int.{ℤ}
use transact_go.Transfers.Entities.{Transfer}
use transact_go.Transfers.Store.{Db}

pub record PlatformRow : Type 0 where
  pub currency : String
  pub type : String
  pub status : String
  pub count : ℕ
  pub volume : ℤ
  pub fees : ℤ

pub record PlatformSummary : Type 0 where
  pub period_from : ℕ
  pub period_to : ℕ
  pub breakdown : List PlatformRow
  pub generated_at : ℕ

abbrev pub in_report : ℕ → ℕ → Transfer → Bool
in_report from to t = leb from t.created_at && leb t.created_at to

unfoldable pub get_platform_summary :
    (grouped : List Transfer → List PlatformRow) → (now from to : ℕ) → Db → PlatformSummary
get_platform_summary grouped now from to db = record {
  period_from = from;
  period_to = to;
  breakdown = grouped (select (in_report from to) db.transfers);
  generated_at = now;
}
