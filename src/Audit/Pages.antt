-- ===== src/Audit/Pages.antt =====
-- The pages of the audit trail of src/modules/audit/audit.service.ts.
use transact_go.Audit.Service.{AuditLog, AuditTrail, LogFilters, get_logs, in_logs, or_given}
use transact_go.Prelude.{
  List, [], arith, min, refl, select, some, suc, zero, ℕ, ◌++◌, ◌<◌, ◌∙◌, ◌≡◌, ◌≤◌,
}
use transact_go.Prelude.Paging.{collect, collect_pages}

module _ {M : Type 0} (f : LogFilters) (trail : AuditTrail M) where
  abbrev pub on_page : ℕ → LogFilters
  on_page k = record f { page = some k }

  abbrev pub collect_logs : ℕ → ℕ → List (AuditLog M)
  collect_logs zero k = []
  collect_logs (suc n) k = (get_logs (on_page (suc k)) trail).entries ++ collect_logs n (suc k)

  collect_logs-eq :
      (n k : ℕ)
      → or_given f.limit 50 ≤ 200
      → collect_logs n k ≡ collect (select (in_logs f) trail.logs) (or_given f.limit 50) n k
  unfolding get_logs
  collect_logs-eq zero k h = refl
  collect_logs-eq (suc n) k h =
      let size : min (or_given f.limit 50) 200 ≡ or_given f.limit 50 = omega arith in
      rw (size, collect_logs-eq n (suc k) h) refl

  -- With a limit from 1 to 200, the pages from the first to the last that is announced hold every
  -- entry that the filters select once, the newest first.
  pub get_logs_pages :
      0 < or_given f.limit 50
      → or_given f.limit 50 ≤ 200
      → collect_logs (get_logs (on_page 1) trail).pages 0 ≡ select (in_logs f) trail.logs
  unfolding get_logs
  get_logs_pages some_limit small =
      collect_logs-eq (get_logs (on_page 1) trail).pages 0 small
      ∙ collect_pages (select (in_logs f) trail.logs) (or_given f.limit 50) some_limit
