-- ===== src/Idempotency/Cases.antt =====
-- How src/common/interceptors/idempotency.interceptor.ts can end.
use Prim.Native.String.{count}
use text.Mathlib.TextPositions.{eq_refl}
use transact_go.Idempotency.Interceptor.{
  HandlerEnd, IdempotencyRecord, Reply, Request, Server, after_claim, after_lookup, answer_existing,
  answered, claim, composite_key_of, endpoint_of, execute, find_record, finish_record, finish_step,
  has_key, intercept, intercept_key, is_in_flight, new_record, rejected, replayed, take_key,
  update_record,
}
use transact_go.Idempotency.Once.{has_key-update}
use transact_go.Idempotency.Replay.{IsUsable, intercept_usable}
use transact_go.Prelude.{
  Bool-cases, List, Option, String, [], arith, inl, inr, ltb, none, refl, some, str_eq, true, ◌∙◌,
  ◌∷◌, ◌≡◌,
}

-- An answer that does not come from a run of the handler.
abbrev pub IsHeld : {B : Type 0} → Reply B → Type 0
IsHeld (answered _) = ⊥
IsHeld (replayed _ _) = Unit
IsHeld (rejected _) = Unit

answer_existing-IsHeld : {B : Type 0} (x : IdempotencyRecord B) → IsHeld (answer_existing x)
unfolding answer_existing
answer_existing-IsHeld x = elim (Bool-cases (is_in_flight x.status)) [
  | inl busy ↦ rw busy tt
  | inr over ↦ rw over tt
]

has_key-find_record :
    {B : Type 0} (k e : String) (t : List (IdempotencyRecord B)) (x : IdempotencyRecord B)
    → find_record k e t ≡ some x
    → has_key k t ≡ true
has_key-find_record k e [] x h = cc
has_key-find_record k e (r ∷ t) x h = ground (arith, has_key-find_record k e t x)

module _ {B S : Type 0} where
  -- Either a request is held up and nothing changes, or the handler runs on the state.
  pub data Ends (h : S → HandlerEnd B × S) (s : Server B S) (x : Reply B × Server B S)
      : Type 0 where
    held : IsHeld x.0 → x.1 ≡ s → Ends h s x
    ran :
        (t : List (IdempotencyRecord B))
        → x.0 ≡ answered (h s.app).0
        → x.1 ≡ record s { records = t; app = (h s.app).1 }
        → Ends h s x

  module _ (h : S → HandlerEnd B × S) (r : Request) (s : Server B S) where
    finish_step-Ends :
        (k e : String) (o : Option (List (IdempotencyRecord B)))
        → Ends h s (finish_step h k e (after_claim s o))
    unfolding execute
    finish_step-Ends k e none = held tt refl
    finish_step-Ends k e (some t) =
        ran (update_record k e (finish_record (h s.app).0 s.now) t) refl refl

    after_lookup-Ends :
        (key : String) (o : Option (IdempotencyRecord B)) → Ends h s (after_lookup h r key s o)
    unfolding take_key
    after_lookup-Ends key (some x) = held (answer_existing-IsHeld x) refl
    after_lookup-Ends key none =
        finish_step-Ends (composite_key_of r key) (endpoint_of r)
          (claim (new_record r key s.now) s.records)

    intercept_key-Ends : (key : String) → Ends h s (intercept_key h r key s)
    unfolding intercept_key
    intercept_key-Ends key = elim (Bool-cases (str_eq key "")) [
      | inl blank ↦ rw blank (held tt refl)
      | inr there ↦ elim (Bool-cases (ltb (count key) 16)) [
        | inl short ↦ rw (there, short) (held tt refl)
        | inr long ↦
            rw (there, long)
              (after_lookup-Ends key
                (find_record (composite_key_of r key) (endpoint_of r) s.records))
      ]
    ]

    after_header-Ends : (o : Option String) → r.key ≡ o → Ends h s (intercept h true r s)
    unfolding intercept
    after_header-Ends none e = rw e (held tt refl)
    after_header-Ends (some key) e = rw e (intercept_key-Ends key)

    pub intercept-Ends : Ends h s (intercept h true r s)
    intercept-Ends = after_header-Ends r.key refl

    after_lookup_taken :
        (key : String) (o : Option (IdempotencyRecord B))
        → has_key (composite_key_of r key) s.records ≡ true
        → IsHeld (after_lookup h r key s o).0 × ((after_lookup h r key s o).1 ≡ s)
    unfolding take_key claim
    after_lookup_taken key (some x) taken = (answer_existing-IsHeld x, refl)
    after_lookup_taken key none taken = rw taken (tt, refl)

    -- With a key that is known the request is held up, whatever the key is known from.
    pub intercept_taken :
        (key : String)
        → IsUsable r key
        → has_key (composite_key_of r key) s.records ≡ true
        → IsHeld (intercept h true r s).0 × ((intercept h true r s).1 ≡ s)
    intercept_taken key usable taken = rw (intercept_usable r key usable h s) (
        after_lookup_taken key (find_record (composite_key_of r key) (endpoint_of r) s.records)
          taken)

    after_lookup_leaves :
        (key : String) (o : Option (IdempotencyRecord B))
        → find_record (composite_key_of r key) (endpoint_of r) s.records ≡ o
        → has_key (composite_key_of r key) (after_lookup h r key s o).1.records ≡ true
    unfolding take_key claim execute
    after_lookup_leaves key (some x) found =
        has_key-find_record (composite_key_of r key) (endpoint_of r) s.records x found
    after_lookup_leaves key none missing =
        elim (Bool-cases (has_key (composite_key_of r key) s.records)) [
          | inl taken ↦ rw taken taken
          | inr free ↦ rw free (
              has_key-update (composite_key_of r key) (composite_key_of r key) (endpoint_of r)
                (h s.app).0 s.now (new_record r key s.now ∷ s.records)
              ∙ rw (eq_refl (composite_key_of r key)) refl)
        ]

    -- After any request with a key that the interceptor takes, the key is known.
    pub intercept_leaves :
        (key : String)
        → IsUsable r key
        → has_key (composite_key_of r key) (intercept h true r s).1.records ≡ true
    intercept_leaves key usable = rw (intercept_usable r key usable h s) (
        after_lookup_leaves key (find_record (composite_key_of r key) (endpoint_of r) s.records)
          refl)
