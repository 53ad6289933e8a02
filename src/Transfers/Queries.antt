-- ===== src/Transfers/Queries.antt =====
-- The reading methods of src/modules/transfers/transfers.service.ts: `getTransferHistory` and
-- `getTransferById`.
use transact_go.Outcome.{
  Exec, access_denied, err, forbidden, gets, not_found, ok, or_throw, pure, throw_if,
  transfer_not_found, ◌>>=◌, ◌>>◌,
}
use transact_go.Prelude.{
  All, Bool, Bool-cases, List, Option, Option-cases, [], arith, drop, false, inl, inr, length,
  length-take, min, none, not, select, some, suc, take, true, zero, ℕ, ◌&&◌, ◌*◌, ◌-◌, ◌==◌, ◌∷◌,
  ◌≡◌, ◌≢◌, ◌≤◌, ◌⊎◌,
}
use transact_go.Prelude.Paging.{Page, or_default, page_of}
use transact_go.Transfers.Entities.{
  Transfer, TransferStatus, TransferType, cancelled, completed, deposit_type, failed,
  internal_transfer_type, pending, processing, reversed, withdrawal_type,
}
use transact_go.Transfers.Store.{Db, find_transfer}

pub record HistoryQuery : Type 0 where
  pub page : Option ℕ
  pub limit : Option ℕ
  pub status : Option TransferStatus
  pub type : Option TransferType

abbrev pub same_status : TransferStatus → TransferStatus → Bool
same_status pending pending = true
same_status processing processing = true
same_status completed completed = true
same_status failed failed = true
same_status reversed reversed = true
same_status cancelled cancelled = true
same_status _ _ = false

abbrev pub same_type : TransferType → TransferType → Bool
same_type internal_transfer_type internal_transfer_type = true
same_type deposit_type deposit_type = true
same_type withdrawal_type withdrawal_type = true
same_type _ _ = false

abbrev pub has_status : Option TransferStatus → Transfer → Bool
has_status none t = true
has_status (some s) t = same_status t.status s

abbrev pub has_type : Option TransferType → Transfer → Bool
has_type none t = true
has_type (some k) t = same_type t.type k

-- The `where` of the query.
abbrev pub in_history : ℕ → HistoryQuery → Transfer → Bool
in_history user_id o t = t.user_id == user_id && has_status o.status t && has_type o.type t

abbrev pub history_rows : ℕ → HistoryQuery → Db → List Transfer
history_rows user_id o db = select (in_history user_id o) db.transfers

unfoldable pub get_transfer_history : ℕ → HistoryQuery → Db → Page Transfer
get_transfer_history user_id options db =
    page_of (history_rows user_id options db) (or_default options.page 1)
      (min (or_default options.limit 20) 100)

unfoldable pub get_transfer_by_id : ℕ → ℕ → Exec Db Transfer
get_transfer_by_id id user_id = do
  found ← gets (find_transfer id)
  transfer ← or_throw found (not_found transfer_not_found)
  throw_if (not (transfer.user_id == user_id)) (forbidden access_denied)
  pure transfer

select-All :
    (p : Transfer → Bool) (P : Transfer → Type 0) (t : List Transfer)
    → ((x : Transfer) → p x ≡ true → P x)
    → All P (select p t)
select-All p P [] h = tt
select-All p P (x ∷ t) h = elim (Bool-cases (p x)) [
  | inl yes_x ↦ rw yes_x (h x yes_x, select-All p P t h)
  | inr no_x ↦ rw no_x (select-All p P t h)
]

take-All : (P : Transfer → Type 0) (n : ℕ) (t : List Transfer) → All P t → All P (take n t)
take-All P zero t h = tt
take-All P (suc n) [] h = tt
take-All P (suc n) (x ∷ t) h = (h.0, take-All P n t h.1)

drop-All : (P : Transfer → Type 0) (n : ℕ) (t : List Transfer) → All P t → All P (drop n t)
drop-All P zero t h = h
drop-All P (suc n) [] h = tt
drop-All P (suc n) (x ∷ t) h = drop-All P n t h.1

-- A page of the history holds the user's own transfers alone, at most 100 of them.
pub get_transfer_history_own :
    (user : ℕ) (o : HistoryQuery) (db : Db)
    → All (λ t. t.user_id ≡ user) (get_transfer_history user o db).entries
      × (length (get_transfer_history user o db).entries ≤ 100)
unfolding get_transfer_history
get_transfer_history_own user o db =
    let size : ℕ = min (or_default o.limit 20) 100 in
    let skip : ℕ = (or_default o.page 1 - 1) * size in
    let Own : Transfer → Type 0 = λ t. t.user_id ≡ user in
    (
      take-All Own size (drop skip (history_rows user o db)) (
          drop-All Own skip (history_rows user o db)
            (select-All (in_history user o) Own db.transfers (λ t h. ground arith))),
      omega (arith, length-take size (drop skip (history_rows user o db))),
    )

-- A transfer is shown to the user who made it and to nobody else; an unknown one is not found.
pub get_transfer_by_id-cases :
    (id user : ℕ) (db : Db)
    → ((find_transfer id db ≡ none)
        × (get_transfer_by_id id user db ≡ (err (not_found transfer_not_found), db)))
      ⊎ ((t : Transfer) × (find_transfer id db ≡ some t)
          × (t.user_id ≡ user)
          × (get_transfer_by_id id user db ≡ (ok t, db)))
      ⊎ ((t : Transfer) × (find_transfer id db ≡ some t)
          × (t.user_id ≢ user)
          × (get_transfer_by_id id user db ≡ (err (forbidden access_denied), db)))
unfolding get_transfer_by_id
get_transfer_by_id-cases id user db = elim (Option-cases (find_transfer id db)) [
  | inl missing ↦ inl (missing, ground arith)
  | inr (t, found) ↦ elim (Bool-cases (t.user_id == user)) [
    | inl mine ↦ inr (inl (t, found, ground arith, ground arith))
    | inr other ↦ inr (inr (t, found, ground arith, ground arith))
  ]
]
