-- ===== src/Tasks/Cleanup.antt =====
-- The daily cleanup of src/modules/queue/queue.module.ts and requests that are repeated after it.
use transact_go.Idempotency.Interceptor.{
  HandlerEnd, IdempotencyRecord, Request, Server, answered, composite_key_of, endpoint_of,
  finish_record, has_key, intercept, new_record, returned, threw, update_record,
}
use transact_go.Idempotency.Once.{has_key-update}
use transact_go.Idempotency.Replay.{
  IsUsable, answer_existing-finish_record, intercept_first, intercept_usable, matches-finish_record,
  replay_of,
}
use transact_go.Prelude.{
  Bool, Bool-cases, List, String, [], arith, false, if◌then◌else◌, inl, inr, ltb, not, refl, select,
  true, ℕ, ◌+◌, ◌∙◌, ◌∷◌, ◌≡◌,
}
use transact_go.Tasks.Service.{cleanup_idempotency_records, is_expired, retention}

-- Deleting rows does not bring a key back.
has_key-select :
    {B : Type 0} (p : IdempotencyRecord B → Bool) (k : String) (t : List (IdempotencyRecord B))
    → has_key k t ≡ false
    → has_key k (select p t) ≡ false
has_key-select p k [] h = refl
has_key-select p k (r ∷ t) h = ground (arith, has_key-select p k t)

-- Whether the record of a request that ended so and was made at `at` is deleted at `later`.
abbrev pub is_forgotten : {B : Type 0} → HandlerEnd B → ℕ → ℕ → Bool
is_forgotten (returned _ _) at later = ltb (at + retention) later
is_forgotten (threw _ _) at later = false

is_expired-finish_record :
    {B : Type 0} (r : Request) (key : String) (end : HandlerEnd B) (at later : ℕ)
    → is_expired later (finish_record end at (new_record r key at)) ≡ is_forgotten end at later
is_expired-finish_record r key (returned status body) at later = ground arith
is_expired-finish_record r key (threw status message) at later = ground arith

module _ {B S : Type 0} (r : Request) (key : String) (usable : IsUsable r key)
    (h h' : S → HandlerEnd B × S) (s : Server B S) (later : ℕ) where
  -- The server after the first request and the cleanup at the time `later`.
  abbrev pub cleaned : Server B S
  cleaned = (cleanup_idempotency_records (record (intercept h true r s).1 { now = later })).1

  -- The rows beside that of the request.
  others : List (IdempotencyRecord B)
  others =
      select (λ x. not (is_expired later x))
        (update_record (composite_key_of r key) (endpoint_of r) (finish_record (h s.app).0 s.now)
          s.records)

  row : IdempotencyRecord B
  row = finish_record (h s.app).0 s.now (new_record r key s.now)

  others-free :
      has_key (composite_key_of r key) s.records ≡ false
      → has_key (composite_key_of r key) others ≡ false
  unfolding others
  others-free free =
      has_key-select (λ x. not (is_expired later x)) (composite_key_of r key)
        (update_record (composite_key_of r key) (endpoint_of r) (finish_record (h s.app).0 s.now)
          s.records)
        (has_key-update (composite_key_of r key) (composite_key_of r key) (endpoint_of r)
            (h s.app).0 s.now s.records
          ∙ free)

  cleaned_lem :
      has_key (composite_key_of r key) s.records ≡ false
      → cleaned ≡ record {
        records = if is_forgotten (h s.app).0 s.now later then others else row ∷ others;
        app = (h s.app).1;
        now = later;
      }
  unfolding cleanup_idempotency_records others row
  cleaned_lem free =
      rw
        (
          intercept_first r key usable h s free,
          is_expired-finish_record r key (h s.app).0 s.now later,
        )
        (ground arith)

  -- The request is sent with a fresh key, and again after the cleanup, perhaps with another handler.
  -- The repetition is answered from the record, and changes nothing, unless the first run returned
  -- more than 25 hours before the cleanup: then its handler runs. The record of a run that threw is
  -- never deleted, so that a repetition gets the old error for good.
  pub intercept-cleanup :
      has_key (composite_key_of r key) s.records ≡ false
      → let (end, app) = h s.app in
        let forgotten = is_forgotten end s.now later in
        let (reply, s') = intercept h' true r cleaned in
        (reply ≡ (if forgotten then answered (h' app).0 else replay_of end))
        × (s'.app ≡ (if forgotten then (h' app).1 else app))
  unfolding row
  intercept-cleanup free = elim (Bool-cases (is_forgotten (h s.app).0 s.now later)) [
    | inl gone ↦
        rw
          (
            cleaned_lem free,
            gone,
            intercept_first r key usable h'
                (record { records = others; app = (h s.app).1; now = later }) (others-free free),
          )
          (refl, refl)
    | inr kept ↦
        rw
          (
            cleaned_lem free,
            kept,
            intercept_usable r key usable h'
                (record { records = row ∷ others; app = (h s.app).1; now = later }),
            matches-finish_record r key (h s.app).0 s.now s.now,
            answer_existing-finish_record r key (h s.app).0 s.now s.now,
          )
          (refl, refl)
  ]
