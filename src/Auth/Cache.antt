-- ===== src/Auth/Cache.antt =====
-- What AuthService uses of `cache-manager`: an interface with the behaviour that its documentation
-- states. Times are milliseconds. At the very millisecond of the deadline nothing is promised.
use pay_era.Prelude.{ℕ, ◌+◌, ◌<◌, ◌≡◌, ◌≢◌, Option, none, some, String}

pub record CacheManager : Type 1 where
  pub State : Type 0
  pub get : String → ℕ → State → Option String
  -- Key, value, time to live and the time of the call.
  pub set : String → String → ℕ → ℕ → State → State
  pub del : String → State → State
  pub get-set :
      (k v : String) (ttl now at : ℕ) (c : State)
      → at < now + ttl
      → get k at (set k v ttl now c) ≡ some v
  pub get-set_expired :
      (k v : String) (ttl now at : ℕ) (c : State)
      → now + ttl < at
      → get k at (set k v ttl now c) ≡ none
  pub get-set_other :
      (k j v : String) (ttl now at : ℕ) (c : State)
      → j ≢ k
      → get j at (set k v ttl now c) ≡ get j at c
  pub get-del : (k : String) (at : ℕ) (c : State) → get k at (del k c) ≡ none
  pub get-del_other : (k j : String) (at : ℕ) (c : State) → j ≢ k → get j at (del k c) ≡ get j at c
