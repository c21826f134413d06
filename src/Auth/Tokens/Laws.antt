-- ===== src/Auth/Tokens/Laws.antt =====
-- Refresh tokens against sessions that hold one token each.
use pay_era.Prelude.{
  ◌↔◌, is_ok, eq_iff, sym, subst, ==_refl, Bool, true, false, Result, Option-cases, forbidden,
  not_found, failure, no_record, unique_violation, key_violation, ℕ, ◌≡◌, inl, inr, refl, ap, ◌∙◌,
  Option, none, some, [], ◌∷◌, ◌++◌, String, ok, err, unauthorized, bad_request, arith, Bool-cases,
  ◌==◌, str_eq,
}
use pay_era.Prelude.Table.{find_first, update_many, find_first_holds, find_first-weaker}
use pay_era.Accounts.Store.{User, Store, update_user}
use pay_era.Accounts.Users.{is_live}
use pay_era.Auth.Tokens.{
  Tokens, Libraries, Ambient, set_hash, reuse_log, revoke, generate_tokens, rotate, refresh_token,
}
use pay_era.Auth.Tokens.Sessions.{
  Outcome, outcome, Sessions, accepted, outcome, Hashing, Sessions, accepted, refused, reused,
  start, new_tokens, exchange, Represents, live_id, ==_at, Represents-start, HasSession,
  HasSession-cases, IsExchange, IsExchange-of, role_of,
}

module _ (lib : Libraries) (h : Hashing lib) where
  -- `update_user` of a user that was read.
  update_found :
      (id : ℕ) (u : User) (f : User → User) (s : Store)
      → find_first (is_live id) s.users ≡ some u
      → (u.id ≡ id)
        × ((x : User) × (update_user u.id f s
              ≡ (ok x, record s { users = update_many (λ y. y.id == id) f s.users })))
  update_found id u f s found =
      let key : u.id ≡ id = live_id lib h id u (find_first_holds (is_live id) s.users u found) in
      let (v, again) =
        find_first-weaker (is_live id) (λ x. x.id == id) s.users {r = u} found
          (==_at lib h u.id id key) in
      (key, (f v, ground (arith, again, key)))

  module _ (env : Ambient) (token : String) (id : ℕ) (s : Store) (σ : Sessions)
      (r : Represents lib h s σ) where
    -- The three ends of a refresh whose user has a session.
    rotate_cases :
        (f : HasSession lib h (find_first (is_live id) s.users) (σ id))
        → IsExchange lib h (rotate lib env token f.user f.hash s) (
            exchange lib h id
              (h.kept token)
              (lib.verify token env.now)
              (new_tokens lib h id f.user.role env.now)
              σ)
    unfolding rotate revoke generate_tokens
    rotate_cases f =
        let fresh = new_tokens lib h id f.user.role env.now in
        let same : lib.compare token f.hash ≡ str_eq (h.kept token) (h.kept f.issued) =
          ap (lib.compare token) f.made ∙ h.compare_hash token f.issued f.salt in
        let put = λ (hash : Option String).
          update_many (λ (y : User). y.id == id) (set_hash hash) s.users in
        elim (Bool-cases (str_eq (h.kept token) (h.kept f.issued))) [
          | inl own ↦ elim (Bool-cases (lib.verify token env.now)) [
            | inl valid ↦
                let hash = some (lib.hash fresh.refresh_token env.salt) in
                let key = some (h.kept fresh.refresh_token) in
                let (_, (x, done)) = update_found id f.user (set_hash hash) s f.row in
                let run : rotate lib env token f.user f.hash s
                    ≡ (ok fresh, record s { users = put hash }) =
                  ground arith in
                let spec : exchange lib h id (h.kept token) (lib.verify token env.now) fresh σ
                    ≡ (accepted fresh, start id key σ) =
                  ground (arith, f.current) in
                IsExchange-of lib h run spec (
                  refl,
                  Represents-start lib h s σ id f.user hash key r f.row
                      (fresh.refresh_token, (env.salt, (refl, refl))),
                )
            | inr old ↦
                let run : rotate lib env token f.user f.hash s
                    ≡ (err (bad_request "Refresh token expired"), s) =
                  ground arith in
                let spec : exchange lib h id (h.kept token) (lib.verify token env.now) fresh σ
                    ≡ (refused, σ) =
                  ground (arith, f.current) in
                IsExchange-of lib h run spec (refl, r)
          ]
          | inr other ↦
              let (_, (x, done)) = update_found id f.user (set_hash none) s f.row in
              let run : rotate lib env token f.user f.hash s ≡ (
                err (
                    unauthorized
                      "Token reuse detected. All sessions revoked. Please log in again."),
                record s { users = put none; logs = s.logs ++ reuse_log f.user.id ∷ [] },
              ) =
                ground arith in
              let spec : exchange lib h id (h.kept token) (lib.verify token env.now) fresh σ
                  ≡ (reused, start id none σ) =
                ground (arith, f.current) in
              IsExchange-of lib h run spec
                (refl, Represents-start lib h s σ id f.user none none r f.row refl)
        ]

  -- A refresh is the exchange of the one token that a user's session holds: the current token gives
  -- new ones and is replaced, an expired one is refused, any other one ends the session. What counts
  -- of a token is the part that `bcrypt` keeps.
  pub refresh_token-Exchanges :
      (env : Ambient) (token : String) (id : ℕ) (s : Store) (σ : Sessions)
      → Represents lib h s σ
      → lib.decode token ≡ ok (some id)
      → IsExchange lib h (refresh_token lib env token s) (
          exchange lib h id
            (h.kept token)
            (lib.verify token env.now)
            (new_tokens lib h id (role_of lib h id s) env.now)
            σ)
  unfolding refresh_token
  refresh_token-Exchanges env token id s σ r decoded =
      elim (HasSession-cases lib h (find_first (is_live id) s.users) (σ id) (r id)) [
        | inl (nobody, ended) ↦
            let run : refresh_token lib env token s
                ≡ (err (bad_request "Invalid refresh token"), s) =
              ground arith in
            let spec : exchange lib h id (h.kept token) (lib.verify token env.now)
                  (new_tokens lib h id (role_of lib h id s) env.now) σ
                ≡ (refused, σ) =
              ground arith in
            IsExchange-of lib h run spec (refl, r)
        | inr f ↦
            let run : refresh_token lib env token s ≡ rotate lib env token f.user f.hash s =
              ground (arith, f.read) in
            let role : role_of lib h id s ≡ f.user.role = ground (arith, f.row) in
            IsExchange-of lib h run
              (ap
                (λ x.
                  exchange lib h id (h.kept token) (lib.verify token env.now)
                    (new_tokens lib h id x env.now) σ)
                role)
              (rotate_cases env token id s σ r f)
      ]

  -- An exchange that accepts a token replaces it by the new one.
  exchange-accepted :
      (id : ℕ) (key : String) (valid : Bool) (fresh new : Tokens) (σ : Sessions)
      → (exchange lib h id key valid fresh σ).0 ≡ accepted new
      → (exchange lib h id key valid fresh σ).1 id ≡ some (h.kept new.refresh_token)
  exchange-accepted id key valid fresh new σ e = elim (Option-cases (σ id)) [
    | inl ended ↦ ground arith
    | inr (current, holds) ↦ elim (Bool-cases (str_eq key current)) [
      | inr other ↦ ground arith
      | inl own ↦ elim (Bool-cases valid) [
        | inr old ↦ ground arith
        | inl good ↦
            let same : fresh ≡ new = ground arith in
            subst (λ x. (exchange lib h id key valid fresh σ).1 id ≡ some (h.kept x.refresh_token))
              same (ground (arith, ==_refl id))
      ]
    ]
  ]

  abbrev is_accepted : Outcome → Bool
  is_accepted (accepted _) = true
  is_accepted refused = false
  is_accepted reused = false

  outcome-is_ok : (r : Result Tokens) → is_ok r ≡ is_accepted (outcome lib h r)
  outcome-is_ok (ok t) = refl
  outcome-is_ok (err (unauthorized m)) = refl
  outcome-is_ok (err (bad_request m)) = refl
  outcome-is_ok (err (forbidden m)) = refl
  outcome-is_ok (err (not_found m)) = refl
  outcome-is_ok (err (failure m)) = refl
  outcome-is_ok (err no_record) = refl
  outcome-is_ok (err unique_violation) = refl
  outcome-is_ok (err key_violation) = refl

  -- An exchange accepts exactly the unexpired current token.
  exchange_iff :
      (id : ℕ) (key current : String) (valid : Bool) (fresh : Tokens) (σ : Sessions)
      (r : Result Tokens)
      → σ id ≡ some current
      → outcome lib h r ≡ (exchange lib h id key valid fresh σ).0
      → (is_ok r ≡ true) ↔ ((valid ≡ true) × (key ≡ current))
  exchange_iff id key current valid fresh σ r holds e =
      let taken = outcome-is_ok r ∙ ap is_accepted e in
      elim (Bool-cases (str_eq key current)) [
        | inr other ↦ (λ k. ground (arith, taken), λ k. ground (arith, (eq_iff key current).1 k.1))
        | inl own ↦ elim (Bool-cases valid) [
          | inr old ↦ (λ k. ground (arith, taken), λ k. ground arith)
          | inl good ↦ (λ k. (good, (eq_iff key current).0 own), λ k. ground (arith, taken))
        ]
      ]

  -- After an exchange, an unexpired token of the user is taken exactly where it agrees with the new
  -- one in what `bcrypt` keeps of a text, whichever token it is: also the one that was exchanged. An
  -- expired token and one that differs there are never taken.
  pub refresh_token-again :
      (env later : Ambient) (token token' : String) (id : ℕ) (s : Store) (σ : Sessions)
      (fresh : Tokens) (s' : Store)
      → Represents lib h s σ
      → lib.decode token ≡ ok (some id)
      → lib.decode token' ≡ ok (some id)
      → refresh_token lib env token s ≡ (ok fresh, s')
      → (is_ok (refresh_token lib later token' s').0 ≡ true)
        ↔ ((lib.verify token' later.now ≡ true) × (h.kept token' ≡ h.kept fresh.refresh_token))
  refresh_token-again env later token token' id s σ fresh s' r d d' done =
      let sessions =
        (exchange lib h id (h.kept token) (lib.verify token env.now)
          (new_tokens lib h id (role_of lib h id s) env.now) σ).1 in
      let first =
        subst
          (λ x. IsExchange lib h x (
            exchange lib h id (h.kept token) (lib.verify token env.now)
              (new_tokens lib h id (role_of lib h id s) env.now) σ))
          done (refresh_token-Exchanges env token id s σ r d) in
      let second = refresh_token-Exchanges later token' id s' sessions first.1 d' in
      exchange_iff id (h.kept token') (h.kept fresh.refresh_token) (lib.verify token' later.now)
        (new_tokens lib h id (role_of lib h id s') later.now) sessions
        (refresh_token lib later token' s').0
        (exchange-accepted id (h.kept token) (lib.verify token env.now)
          (new_tokens lib h id (role_of lib h id s) env.now) fresh σ (sym first.0))
        second.0
