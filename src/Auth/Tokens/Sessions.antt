-- ===== src/Auth/Tokens/Sessions.antt =====
-- Sessions that hold one token each, and how the rows of the users show them.
use pay_era.Prelude.{
  ℕ, ◌≡◌, ◌⊎◌, inl, inr, refl, sym, ap, ◌∙◌, subst, Bool, true, Option, none, some, String, Result,
  ok, err, unauthorized, bad_request, arith, Bool-cases, Option-cases, ◌==◌, str_eq, if◌then◌else◌,
}
use pay_era.Prelude.Table.{find_first, update_many, find_first-update_kept, find_first_holds}
use pay_era.Accounts.Store.{UserRole, User, Store}
use pay_era.Accounts.Users.{is_live}
use pay_era.Auth.Tokens.{Libraries, Tokens, Ambient, set_hash, with_hash}

-- What is assumed of `bcrypt.compare`: it compares the part of the texts that is hashed, `kept`.
pub record Hashing (lib : Libraries) : Type 0 where
  pub kept : String → String
  pub compare_hash :
      (token other salt : String)
      → lib.compare token (lib.hash other salt) ≡ str_eq (kept token) (kept other)

-- Each user has one session at most: what is kept of the token that was issued last.
abbrev pub Sessions : Type 0
Sessions = ℕ → Option String

pub data Outcome : Type 0 where
  accepted : Tokens → Outcome
  refused : Outcome
  reused : Outcome

abbrev pub start : ℕ → Option String → Sessions → Sessions
start id token σ m = if m == id then token else σ m

module _ (lib : Libraries) (h : Hashing lib) where
  abbrev pub new_tokens : ℕ → UserRole → ℕ → Tokens
  new_tokens id role now = record {
    access_token = lib.sign_access id role now;
    refresh_token = lib.sign_refresh id role now;
  }

  -- The exchange of a token for new ones, by the kept part `key` of the token, its validity and the
  -- new tokens.
  abbrev pub exchange : ℕ → String → Bool → Tokens → Sessions → Outcome × Sessions
  exchange id key valid fresh σ = elim (σ id) [
    | none ↦ (refused, σ)
    | some current ↦
        if str_eq key current
        then (if valid
            then (accepted fresh, start id (some (h.kept fresh.refresh_token)) σ)
            else (refused, σ))
        else (reused, start id none σ)
  ]

  -- How a user's row shows a session: by a hash of its token.
  abbrev pub IsHashed : Option String → Option String → Type 0
  IsHashed none token = token ≡ none
  IsHashed (some hash) token =
      (t : String) × ((salt : String) × ((hash ≡ lib.hash t salt) × (token ≡ some (h.kept t))))

  abbrev pub Shows : Option User → Option String → Type 0
  Shows none token = token ≡ none
  Shows (some u) token = IsHashed u.hashed_refresh_token token

  abbrev pub Represents : Store → Sessions → Type 0
  Represents s σ = (id : ℕ) → Shows (find_first (is_live id) s.users) (σ id)

  abbrev pub outcome : Result Tokens → Outcome
  outcome (ok tokens) = accepted tokens
  outcome (err (unauthorized _)) = reused
  outcome (err (bad_request _)) = refused
  outcome (err _) = refused

  pub live_id : (id : ℕ) (u : User) → is_live id u ≡ true → u.id ≡ id
  live_id id u e = ground arith

  pub ==_at : (a b : ℕ) → a ≡ b → (a == b) ≡ true
  ==_at a b e = ground arith

  -- Where a live user's hash is replaced, its session is, and no other.
  pub Represents-start :
      (s : Store) (σ : Sessions) (id : ℕ) (u : User) (hash token : Option String)
      → Represents s σ
      → find_first (is_live id) s.users ≡ some u
      → IsHashed hash token
      → (m : ℕ)
      → Shows
          (find_first (is_live m) (update_many (λ x. x.id == id) (set_hash hash) s.users))
          (start id token σ m)
  Represents-start s σ id u hash token r found shown m =
      let read =
        find_first-update_kept (is_live m) (λ x. x.id == id) (set_hash hash) s.users (λ x. refl) in
      elim (Bool-cases (m == id)) [
        | inl own ↦
            let same : m ≡ id = ground arith in
            let at : find_first (is_live m) s.users ≡ some u = rw same found in
            let key : u.id ≡ id = live_id id u (find_first_holds (is_live id) s.users u found) in
            rw (read, at, own, ==_at u.id id key) shown
        | inr other ↦ elim (Option-cases (find_first (is_live m) s.users)) [
          | inl nobody ↦ rw (read, nobody, other) (subst (λ x. Shows x (σ m)) nobody (r m))
          | inr (v, at) ↦
              let key : v.id ≡ m = live_id m v (find_first_holds (is_live m) s.users v at) in
              rw (read, at, other, ap (λ n. n == id) key ∙ other)
                (subst (λ x. Shows x (σ m)) at (r m))
        ]
      ]

  abbrev pub fresh_for : Ambient → ℕ → User → Tokens
  fresh_for env id u = new_tokens id u.role env.now

  -- A user that has a session: its row, and the token that its hash is made of.
  pub record HasSession (o : Option User) (token : Option String) : Type 0 where
    pub user : User
    pub hash : String
    pub issued : String
    pub salt : String
    pub row : o ≡ some user
    pub read : with_hash o ≡ some (user, hash)
    pub made : hash ≡ lib.hash issued salt
    pub current : token ≡ some (h.kept issued)

  pub HasSession-cases :
      (o : Option User) (token : Option String)
      → Shows o token
      → ((with_hash o ≡ none) × (token ≡ none)) ⊎ HasSession o token
  HasSession-cases none token shown = inl (refl, shown)
  HasSession-cases (some u) token shown = elim (Option-cases u.hashed_refresh_token) [
    | inl e ↦ inl (ground arith, subst (λ x. IsHashed x token) e shown)
    | inr (hash, e) ↦
        let (t, (salt, (made, key))) = subst (λ x. IsHashed x token) e shown in
        inr (record {
          user = u;
          hash = hash;
          issued = t;
          salt = salt;
          row = refl;
          read = ground arith;
          made = made;
          current = key;
        })
  ]

  -- What a refresh reports, and the sessions afterwards, agree with the exchange of tokens.
  abbrev pub IsExchange : Result Tokens × Store → Outcome × Sessions → Type 0
  IsExchange (r, s') (o, σ') = (outcome r ≡ o) × Represents s' σ'

  pub IsExchange-of :
      {x x' : Result Tokens × Store} {y y' : Outcome × Sessions}
      → x ≡ x'
      → y ≡ y'
      → IsExchange x' y'
      → IsExchange x y
  IsExchange-of {x' = x'} {y = y} e d p =
      subst (λ z. IsExchange z y) (sym e) (subst (IsExchange x') (sym d) p)

  abbrev pub role_of : ℕ → Store → UserRole
  role_of id s = elim (find_first (is_live id) s.users) [
    | none ↦ UserRole.consumer
    | some u ↦ u.role
  ]
