-- ===== src/Idempotency/Replay.antt =====
-- Repeated requests in src/common/interceptors/idempotency.interceptor.ts.
use Prim.Native.String.{count}
use text.Mathlib.TextPositions.{eq_refl}
use transact_go.Idempotency.Interceptor.{
  HandlerEnd, IdempotencyRecord, Reply, Request, Server, after_lookup, answer_existing, answered,
  claim, composite_key_of, endpoint_of, execute, find_record, finish_record, has_key, intercept,
  intercept_key, matches, message_of, new_record, rejected, replayed, response_of, returned,
  take_key, threw, update_record,
}
use transact_go.Outcome.{conflict, request_in_progress}
use transact_go.Prelude.{
  List, String, [], arith, false, ltb, none, refl, some, str_eq, true, ℕ, ◌∷◌, ◌≡◌,
}
use transact_go.Prelude.Paging.{or_default}

-- The answer of a repetition, for the end of the first run.
abbrev pub replay_of : {B : Type 0} → HandlerEnd B → Reply B
replay_of (returned status body) = replayed (some status) (response_of body)
replay_of (threw status message) = replayed (some (or_default status 500)) (message_of message)

find_record_free :
    {B : Type 0} (k e : String) (t : List (IdempotencyRecord B))
    → has_key k t ≡ false
    → find_record k e t ≡ none
find_record_free k e [] h = refl
find_record_free k e (r ∷ t) h = ground (arith, find_record_free k e t)

-- What the interceptor asks of the header.
pub record IsUsable (r : Request) (key : String) : Type 0 where
  pub sent : r.key ≡ some key
  pub nonempty : str_eq key "" ≡ false
  pub long : ltb (count key) 16 ≡ false

pub answer_existing-finish_record :
    {B : Type 0} (r : Request) (key : String) (end : HandlerEnd B) (now at : ℕ)
    → answer_existing (finish_record end now (new_record r key at)) ≡ replay_of end
unfolding answer_existing
answer_existing-finish_record r key (returned status body) now at = refl
answer_existing-finish_record r key (threw status message) now at = refl

pub matches-finish_record :
    {B : Type 0} (r : Request) (key : String) (end : HandlerEnd B) (now at : ℕ)
    → matches (composite_key_of r key) (endpoint_of r) (finish_record end now (new_record r key at))
      ≡ true
matches-finish_record r key (returned status body) now at =
    rw (eq_refl (composite_key_of r key), eq_refl (endpoint_of r)) refl
matches-finish_record r key (threw status message) now at =
    rw (eq_refl (composite_key_of r key), eq_refl (endpoint_of r)) refl

module _ {B S : Type 0} (r : Request) (key : String) (usable : IsUsable r key) where
  -- A usable key leads to the lookup.
  pub intercept_usable :
      (h : S → HandlerEnd B × S) (s : Server B S)
      → intercept h true r s
        ≡ after_lookup h r key s (find_record (composite_key_of r key) (endpoint_of r) s.records)
  unfolding intercept intercept_key
  intercept_usable h s = rw (usable.sent, usable.nonempty, usable.long) refl

  -- The server after a first run.
  abbrev pub finished : (S → HandlerEnd B × S) → Server B S → Server B S
  finished h s = record s {
    records =
        finish_record (h s.app).0 s.now (new_record r key s.now)
        ∷ update_record (composite_key_of r key) (endpoint_of r) (finish_record (h s.app).0 s.now)
            s.records;
    app = (h s.app).1;
  }

  pub intercept_first :
      (h : S → HandlerEnd B × S) (s : Server B S)
      → has_key (composite_key_of r key) s.records ≡ false
      → intercept h true r s ≡ (answered (h s.app).0, finished h s)
  unfolding take_key claim execute
  intercept_first h s free =
      rw
        (
          intercept_usable h s,
          find_record_free (composite_key_of r key) (endpoint_of r) s.records free,
          free,
          eq_refl (composite_key_of r key),
          eq_refl (endpoint_of r),
        )
        refl

  -- The first request with a usable key runs the handler and passes its answer on. A repetition of
  -- the request, whatever its handler would do, changes nothing and is given the stored answer:
  -- the response, or the error too, which a retry with this key therefore never gets past.
  pub intercept_replay :
      (h h' : S → HandlerEnd B × S) (s : Server B S)
      → has_key (composite_key_of r key) s.records ≡ false
      → let (end, app) = h s.app in
        let (reply, s') = intercept h true r s in
        (reply ≡ answered end) × (s'.app ≡ app) × (intercept h' true r s' ≡ (replay_of end, s'))
  intercept_replay h h' s free =
      rw
        (
          intercept_first h s free,
          intercept_usable h' (finished h s),
          matches-finish_record r key (h s.app).0 s.now s.now,
          answer_existing-finish_record r key (h s.app).0 s.now s.now,
        )
        (refl, refl, refl)

  -- A key that is known on another endpoint alone is refused as in progress, and nothing runs, also
  -- when the request that used it has long been answered.
  pub intercept_other_endpoint :
      (h : S → HandlerEnd B × S) (s : Server B S)
      → has_key (composite_key_of r key) s.records ≡ true
      → find_record (composite_key_of r key) (endpoint_of r) s.records ≡ none
      → intercept h true r s ≡ (rejected (conflict request_in_progress), s)
  unfolding take_key claim
  intercept_other_endpoint h s taken other = rw (intercept_usable h s, other, taken) refl
