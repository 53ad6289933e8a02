-- ===== src/Reports/Breakdown.antt =====
-- The breakdowns of the summary of src/modules/reports/reports.service.ts against a direct count.
-- The value of a field, with the one that a missing field stands for.
use transact_go.Prelude.{
  Bool, Bool-cases, List, String, [], arith, eq_iff, if◌then◌else◌, inl, inr, length, refl, select,
  str_eq, suc, sym, ℕ, ◌+◌, ◌∙◌, ◌∷◌, ◌≡◌,
}
use transact_go.Prelude.Int.{int_laws, pos, zero_plus, ℤ, ◌+ℤ◌}
use transact_go.Prelude.Rows.{sum_by}
use transact_go.Reports.Summary.{
  CurrencyTotals, TransactionSummary, add_transfer, get_user_summary, in_summary, no_totals,
  put_field, status_text, summarise, summarise_all, type_text,
}
use transact_go.Transfers.Entities.{Transfer}
use transact_go.Transfers.Store.{Db}

abbrev pub get_field : {V : Type 0} → V → String → List (String × V) → V
get_field d k [] = d
get_field d k ((j, v) ∷ rest) = if str_eq j k then v else get_field d k rest

get_field-put_field :
    {V : Type 0} (d : V) (k j : String) (update : V → V) (m : List (String × V))
    → get_field d k (put_field j d update m)
      ≡ (if str_eq j k then update (get_field d k m) else get_field d k m)
get_field-put_field d k j update [] = refl
get_field-put_field d k j update ((i, v) ∷ m) =
    ground (arith, eq_iff j k, eq_iff i j, eq_iff i k, get_field-put_field d k j update m)

-- The rows of one currency, and those of one status.
abbrev pub in_currency : String → Transfer → Bool
in_currency c t = str_eq t.currency c

abbrev pub in_status : String → Transfer → Bool
in_status c t = str_eq (status_text t.status) c

abbrev pub in_type : String → Transfer → Bool
in_type c t = str_eq (type_text t.type) c

abbrev pub totals_of : List Transfer → CurrencyTotals
totals_of ts = record {
  count = length ts;
  volume = sum_by Transfer.amount ts;
  fees = sum_by Transfer.fee ts;
}

abbrev plus_totals : CurrencyTotals → List Transfer → CurrencyTotals
plus_totals c ts = record {
  count = c.count + length ts;
  volume = c.volume +ℤ sum_by Transfer.amount ts;
  fees = c.fees +ℤ sum_by Transfer.fee ts;
}

add_zero : (n : ℕ) → n + 0 ≡ n
add_zero n = omega arith

add_one_suc : (n m : ℕ) → (n + 1) + m ≡ n + suc m
add_one_suc n m = omega arith

zero_add_left : (n : ℕ) → 0 + n ≡ n
zero_add_left n = omega arith

zero_right : (x : ℤ) → x +ℤ pos 0 ≡ x
zero_right x = omega int_laws

regroup : (x y z : ℤ) → (x +ℤ y) +ℤ z ≡ x +ℤ (y +ℤ z)
regroup x y z = omega int_laws

plus_totals_nil : (c : CurrencyTotals) → plus_totals c [] ≡ c
plus_totals_nil c = λ i. record {
  count = add_zero c.count i;
  volume = zero_right c.volume i;
  fees = zero_right c.fees i;
}

plus_totals_cons :
    (c : CurrencyTotals) (t : Transfer) (ts : List Transfer)
    → plus_totals (add_transfer t c) ts ≡ plus_totals c (t ∷ ts)
plus_totals_cons c t ts = λ i. record {
  count = add_one_suc c.count (length ts) i;
  volume = regroup c.volume t.amount (sum_by Transfer.amount ts) i;
  fees = regroup c.fees t.fee (sum_by Transfer.fee ts) i;
}

from_none : (ts : List Transfer) → plus_totals no_totals ts ≡ totals_of ts
from_none ts = λ i. record {
  count = zero_add_left (length ts) i;
  volume = zero_plus (sum_by Transfer.amount ts) i;
  fees = zero_plus (sum_by Transfer.fee ts) i;
}

summarise_all-by_currency :
    (c : String) (ts : List Transfer) (s : TransactionSummary)
    → get_field no_totals c (summarise_all s ts).by_currency
      ≡ plus_totals (get_field no_totals c s.by_currency) (select (in_currency c) ts)
unfolding summarise_all
summarise_all-by_currency c [] s = sym (plus_totals_nil (get_field no_totals c s.by_currency))
summarise_all-by_currency c (t ∷ ts) s =
    rw
      (
        summarise_all-by_currency c ts (summarise s t),
        get_field-put_field no_totals c t.currency (add_transfer t) s.by_currency,
      )
      (elim (Bool-cases (str_eq t.currency c)) [
        | inl mine ↦
            rw mine
              (plus_totals_cons (get_field no_totals c s.by_currency) t (select (in_currency c) ts))
        | inr other ↦ rw other refl
      ])

summarise_all-by_status :
    (c : String) (ts : List Transfer) (s : TransactionSummary)
    → get_field 0 c (summarise_all s ts).by_status
      ≡ get_field 0 c s.by_status + length (select (in_status c) ts)
unfolding summarise_all
summarise_all-by_status c [] s = omega arith
summarise_all-by_status c (t ∷ ts) s =
    rw
      (
        summarise_all-by_status c ts (summarise s t),
        get_field-put_field 0 c (status_text t.status) (λ n. n + 1) s.by_status,
      )
      (elim (Bool-cases (str_eq (status_text t.status) c)) [
        | inl mine ↦ rw mine (omega arith)
        | inr other ↦ rw other refl
      ])

summarise_all-by_type :
    (c : String) (ts : List Transfer) (s : TransactionSummary)
    → get_field 0 c (summarise_all s ts).by_type
      ≡ get_field 0 c s.by_type + length (select (in_type c) ts)
unfolding summarise_all
summarise_all-by_type c [] s = omega arith
summarise_all-by_type c (t ∷ ts) s =
    rw
      (
        summarise_all-by_type c ts (summarise s t),
        get_field-put_field 0 c (type_text t.type) (λ n. n + 1) s.by_type,
      )
      (elim (Bool-cases (str_eq (type_text t.type) c)) [
        | inl mine ↦ rw mine (omega arith)
        | inr other ↦ rw other refl
      ])

summarise_all-volume :
    (ts : List Transfer) (s : TransactionSummary)
    → ((summarise_all s ts).total_volume ≡ s.total_volume +ℤ sum_by Transfer.amount ts)
      × ((summarise_all s ts).total_fees ≡ s.total_fees +ℤ sum_by Transfer.fee ts)
      × ((summarise_all s ts).total_transfers ≡ s.total_transfers)
unfolding summarise_all
summarise_all-volume [] s = (sym (zero_right s.total_volume), sym (zero_right s.total_fees), refl)
summarise_all-volume (t ∷ ts) s =
    let rest = summarise_all-volume ts (summarise s t) in
    (
      rest.0 ∙ regroup s.total_volume t.amount (sum_by Transfer.amount ts),
      rest.1 ∙ regroup s.total_fees t.fee (sum_by Transfer.fee ts),
      rest.2,
    )

-- For every period and user: the count, volume and fees of each currency, and the count of each
-- status and type, are those of the user's transfers of the period in it, a field that is missing
-- standing for none, and the totals are those of all of them.
pub get_user_summary_lem :
    (user from to : ℕ) (db : Db) (c : String)
    → let ts = select (in_summary user from to) db.transfers in
      let s = get_user_summary user from to db in
      (get_field no_totals c s.by_currency ≡ totals_of (select (in_currency c) ts))
      × (get_field 0 c s.by_status ≡ length (select (in_status c) ts))
      × (get_field 0 c s.by_type ≡ length (select (in_type c) ts))
      × (s.total_volume ≡ sum_by Transfer.amount ts)
      × (s.total_fees ≡ sum_by Transfer.fee ts)
      × (s.total_transfers ≡ length ts)
unfolding get_user_summary
get_user_summary_lem user from to db c =
    let ts : List Transfer = select (in_summary user from to) db.transfers in
    let s : TransactionSummary = record {
      period_from = from;
      period_to = to;
      total_transfers = length ts;
      total_volume = pos 0;
      total_fees = pos 0;
      by_status = [];
      by_type = [];
      by_currency = [];
    } in
    let sums = summarise_all-volume ts s in
    (
      summarise_all-by_currency c ts s ∙ from_none (select (in_currency c) ts),
      summarise_all-by_status c ts s ∙ omega arith,
      summarise_all-by_type c ts s ∙ omega arith,
      sums.0 ∙ zero_plus (sum_by Transfer.amount ts),
      sums.1 ∙ zero_plus (sum_by Transfer.fee ts),
      sums.2,
    )
