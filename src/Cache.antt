-- ===== src/Cache.antt =====
-- The cache of `@nestjs/cache-manager`, which the services only call: what they rely on. A cache
-- may forget an entry at any time (its time to live ends, or the server drops it), and it returns
-- nothing that was not stored under the key.
use transact_go.Prelude.{Option, none, some, ℕ, ◌≡◌, ◌≢◌, ◌⊎◌}

pub record Cache (K V : Type 0) : Type 1 where
  pub State : Type 0
  pub get : K → State → Option V
  pub set : K → V → ℕ → State → State
  pub del : K → State → State
  pub get-set :
      (k : K) (v : V) (ttl : ℕ) (s : State)
      → (get k (set k v ttl s) ≡ some v) ⊎ (get k (set k v ttl s) ≡ none)
  pub get-set_ne :
      (j k : K) (v : V) (ttl : ℕ) (s : State)
      → j ≢ k
      → (get j (set k v ttl s) ≡ get j s) ⊎ (get j (set k v ttl s) ≡ none)
  pub get-del : (k : K) (s : State) → get k (del k s) ≡ none
  pub get-del_ne :
      (j k : K) (s : State) → j ≢ k → (get j (del k s) ≡ get j s) ⊎ (get j (del k s) ≡ none)
