-- ===== src/Idempotency/Once.antt =====
-- Requests that overlap in src/common/interceptors/idempotency.interceptor.ts. The lookup only reads,
-- so that a request comes to step 2 whatever other requests have done since its lookup; step 3 of a
-- request comes at any time behind its step 2.
use transact_go.Idempotency.Interceptor.{
  HandlerEnd, IdempotencyRecord, Request, Server, Step, claim, composite_key_of, endpoint_of,
  execute, finish_record, finish_step, go_on, has_key, new_record, returned, stop, take_key, threw,
  update_record,
}
use transact_go.Prelude.{
  Bool, Bool-cases, List, Option, Option-cases, String, [], arith, eq_iff, false, if◌then◌else◌,
  inl, inr, none, refl, some, str_eq, suc, sym, true, zero, ℕ, ◌+◌, ◌∷◌, ◌≡◌, ◌≤◌,
}

module _ {B : Type 0} where
  finish_record-key :
      (end : HandlerEnd B) (now : ℕ) (r : IdempotencyRecord B)
      → (finish_record end now r).composite_key ≡ r.composite_key
  finish_record-key (returned status body) now r = refl
  finish_record-key (threw status message) now r = refl

  pub has_key-update :
      (k j e : String) (end : HandlerEnd B) (now : ℕ) (t : List (IdempotencyRecord B))
      → has_key k (update_record j e (finish_record end now) t) ≡ has_key k t
  has_key-update k j e end now [] = refl
  has_key-update k j e end now (r ∷ t) =
      ground (arith, finish_record-key end now r, has_key-update k j e end now t)

abbrev one_if : Bool → ℕ
one_if true = 1
one_if false = 0

-- A request that has been through step 2.
pub record Waiting (B : Type 0) : Type 0 where
  pub key : String
  pub endpoint : String
  pub step : Step B

-- Step 2 of a request with its key, or step 3 of the n-th request that waits for it, whose handler
-- ends like this, each at a time.
pub data Action (B : Type 0) : Type 0 where
  takes : ℕ → Request → String → Action B
  finishes : ℕ → ℕ → HandlerEnd B → Action B

-- The application counts how often a handler has run for the key `k`.
pub record Overlap (B : Type 0) : Type 0 where
  pub server : Server B ℕ
  pub waiting : List (Waiting B)

abbrev nth : {A : Type 0} → ℕ → List A → Option (A × List A)
nth n [] = none
nth zero (x ∷ xs) = some (x, xs)
nth (suc n) (x ∷ xs) = elim (nth n xs) [ none ↦ none | some (y, ys) ↦ some (y, x ∷ ys) ]

module _ {B : Type 0} (k : String) where
  abbrev pub counting : String → HandlerEnd B → ℕ → HandlerEnd B × ℕ
  counting key end n = (end, if str_eq key k then suc n else n)

  abbrev at_time : ℕ → Overlap B → Server B ℕ
  at_time now o = record o.server { now = now }

  abbrev queue_step : Request → String → Overlap B → Step B × Server B ℕ → Overlap B
  queue_step r key o (step, s) = record {
    server = s;
    waiting =
        record { key = composite_key_of r key; endpoint = endpoint_of r; step = step } ∷ o.waiting;
  }

  abbrev finish_waiting :
      ℕ → HandlerEnd B → Overlap B → Option (Waiting B × List (Waiting B)) → Overlap B
  finish_waiting now end o none = o
  finish_waiting now end o (some (w, rest)) = record {
    server = (finish_step (counting w.key end) w.key w.endpoint (w.step, at_time now o)).1;
    waiting = rest;
  }

  unfoldable pub act : Action B → Overlap B → Overlap B
  unfolding take_key execute
  act (takes now r key) o = queue_step r key o (take_key r key (at_time now o))
  act (finishes now n end) o = finish_waiting now end o (nth n o.waiting)

  unfoldable pub act_all : List (Action B) → Overlap B → Overlap B
  unfolding act
  act_all [] o = o
  act_all (a ∷ acts) o = act_all acts (act a o)

  -- The requests for the key that are to run their handlers.
  abbrev is_due : Waiting B → ℕ
  is_due w = elim w.step [ stop reply ↦ 0 | go_on ↦ if str_eq w.key k then 1 else 0 ]

  abbrev due : List (Waiting B) → ℕ
  due [] = 0
  due (w ∷ ws) = is_due w + due ws

  -- The handlers that have run and those that will are at most one, and none before the key is taken.
  abbrev IsOnce : Overlap B → Type 0
  IsOnce o = o.server.app + due o.waiting ≤ one_if (has_key k o.server.records)

  nth-due :
      (n : ℕ) (ws rest : List (Waiting B)) (w : Waiting B)
      → nth n ws ≡ some (w, rest)
      → due ws ≡ is_due w + due rest
  nth-due n [] rest w e = cc
  nth-due zero (x ∷ xs) rest w e =
      let head : x ≡ w = cc e in let tail : xs ≡ rest = cc e in rw (head, tail) refl
  nth-due (suc n) (x ∷ xs) rest w e = elim (Option-cases (nth n xs)) [
    | inl missing ↦ cc (rw missing at e)
    | inr ((y, ys), found) ↦
        let taken : ◌≡◌ {A = Option (Waiting B × List (Waiting B))} (some (y, x ∷ ys))
            (some (w, rest)) =
          rw found at e in
        let head : y ≡ w = cc taken in
        let tail : x ∷ ys ≡ rest = cc taken in
        let later : due xs ≡ is_due y + due ys = nth-due n xs ys y found in
        rw (sym head, sym tail, later) (omega arith)
  ]

  new_request-IsOnce :
      (key : String) (app ahead : ℕ) (t : List (IdempotencyRecord B)) (fresh : IdempotencyRecord B)
      → fresh.composite_key ≡ key
      → has_key key t ≡ false
      → app + ahead ≤ one_if (has_key k t)
      → app + ((if str_eq key k then 1 else 0) + ahead) ≤ one_if (has_key k (fresh ∷ t))
  new_request-IsOnce key app ahead t fresh own free h = elim (Bool-cases (str_eq key k)) [
    | inl same ↦
        let equal : key ≡ k = (eq_iff key k).0 same in
        let unknown : has_key k t ≡ false = rw equal at free in
        let none_yet : app + ahead ≤ 0 = rw unknown at h in rw (own, same) (omega arith)
    | inr other ↦ rw (own, other) (omega (arith, h))
  ]

  takes-IsOnce :
      (now : ℕ) (r : Request) (key : String) (o : Overlap B)
      → IsOnce o
      → IsOnce (act (takes now r key) o)
  unfolding act take_key claim
  takes-IsOnce now r key o h =
      elim (Bool-cases (has_key (composite_key_of r key) o.server.records)) [
        | inl taken ↦ rw taken (omega (arith, h))
        | inr free ↦ rw free (
            new_request-IsOnce (composite_key_of r key) o.server.app (due o.waiting)
              o.server.records (new_record r key now) refl free h)
      ]

  finish_step-IsOnce :
      (now : ℕ) (end : HandlerEnd B) (o : Overlap B) (key e : String) (step : Step B)
      (rest : List (Waiting B))
      → o.server.app + (is_due (record { key = key; endpoint = e; step = step }) + due rest)
        ≤ one_if (has_key k o.server.records)
      → IsOnce (record {
        server = (finish_step (counting key end) key e (step, at_time now o)).1;
        waiting = rest;
      })
  unfolding execute
  finish_step-IsOnce now end o key e (stop reply) rest h = omega (arith, h)
  finish_step-IsOnce now end o key e go_on rest h =
      let kept = has_key-update k key e end now o.server.records in
      elim (Bool-cases (str_eq key k)) [
        | inl same ↦ rw (kept, same) (omega (arith, rw same at h))
        | inr other ↦ rw (kept, other) (omega (arith, rw other at h))
      ]

  finish_waiting-IsOnce :
      (now n : ℕ) (end : HandlerEnd B) (o : Overlap B) (x : Option (Waiting B × List (Waiting B)))
      → nth n o.waiting ≡ x
      → IsOnce o
      → IsOnce (finish_waiting now end o x)
  finish_waiting-IsOnce now n end o none e h = h
  finish_waiting-IsOnce now n end o (some (w, rest)) e h =
      finish_step-IsOnce now end o w.key w.endpoint w.step rest
        (rw (nth-due n o.waiting rest w e) at h)

  act_all-IsOnce : (acts : List (Action B)) (o : Overlap B) → IsOnce o → IsOnce (act_all acts o)
  unfolding act_all act
  act_all-IsOnce [] o h = h
  act_all-IsOnce (takes now r key ∷ acts) o h =
      act_all-IsOnce acts (act (takes now r key) o) (takes-IsOnce now r key o h)
  act_all-IsOnce (finishes now n end ∷ acts) o h =
      act_all-IsOnce acts (act (finishes now n end) o)
        (finish_waiting-IsOnce now n end o (nth n o.waiting) refl h)

  -- However requests overlap, from a server where no handler has run and none waits: in whatever
  -- order they come to step 2 after their lookups, each from any client and with any key, and in
  -- whatever order, at whatever time and with whatever end their handlers run in step 3, the handler
  -- runs at most once for the key.
  pub executions_bound :
      (acts : List (Action B)) (t : List (IdempotencyRecord B)) (now : ℕ)
      → (act_all acts
          (record { server = record { records = t; app = 0; now = now }; waiting = [] })).server.app
        ≤ 1
  executions_bound acts t now =
      let start : Overlap B = record {
        server = record { records = t; app = 0; now = now };
        waiting = [];
      } in
      let sound : IsOnce (act_all acts start) = act_all-IsOnce acts start (omega arith) in
      elim (Bool-cases (has_key k (act_all acts start).server.records)) [
        | inl known ↦ omega (arith, rw known at sound)
        | inr unknown ↦ omega (arith, rw unknown at sound)
      ]
