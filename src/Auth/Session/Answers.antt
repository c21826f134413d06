-- ===== src/Auth/Session/Answers.antt =====
-- Within its time a nonce is good for a login.
use pay_era.Prelude.{
  ℕ, ◌+◌, ◌<◌, ◌≡◌, ◌≢◌, ◌⊎◌, inl, inr, refl, ap, ◌∙◌, subst, true, false, none, some, List, [],
  ◌∷◌, String, ok, Bool-cases, is_ok, All, any, ◌==◌,
}
use pay_era.Prelude.Table.{find_first, IsBelow}
use pay_era.Accounts.Store.{User, Wallet, Store, clashes}
use pay_era.Auth.Cache.{CacheManager}
use pay_era.Auth.Signature.{Crypto}
use pay_era.Auth.Tokens.{Libraries, Ambient}
use pay_era.Auth.Nonces.{AuthStore, WalletChallenge, is_issued, nonce_ttl, issue_wallet_challenge}
use pay_era.Auth.Nonces.Laws.{
  IsSpent, is_issued-spend_other, is_issued-issue_other, is_issued-issue,
}
use pay_era.Auth.Login.{WalletLogin, Texts, check_login, wallet_login, sign_in, is_at, account_of}
use pay_era.Auth.Login.Laws.{wallet_login_lem}
use pay_era.Auth.Login.SignIn.{sign_in-known, sign_in-new}
use pay_era.Auth.Session.{Request, challenge, wallet, mock, refresh, serve, run}
use pay_era.Auth.Session.Laws.{wallet_login-nonces, ok-IsSpent}

-- The request neither issues the nonce nor claims it.
abbrev pub IsApart : String → Request → Type 0
IsApart nonce (challenge _ n _) = nonce ≢ n
IsApart nonce (wallet _ _ dto) = nonce ≢ dto.nonce
IsApart nonce (mock _ _ _ _) = Unit
IsApart nonce (refresh _ _) = Unit

module _ (lib : Libraries) (text : Texts) (cache : CacheManager) (crypto : Crypto) where
  serve-keeps :
      (at : ℕ) (nonce : String) (q : Request) (s : AuthStore cache)
      → IsApart nonce q
      → is_issued cache at nonce (serve lib text cache crypto q s) ≡ is_issued cache at nonce s
  unfolding serve
  serve-keeps at nonce (challenge now n dto) s apart =
      is_issued-issue_other cache at now nonce n dto s apart
  serve-keeps at nonce (wallet env code dto) s apart =
      elim (Bool-cases (is_issued cache env.now dto.nonce s)) [
        | inl issued ↦
            rw (wallet_login-nonces lib text cache crypto env code dto s, issued)
              (is_issued-spend_other cache at nonce dto.nonce s apart)
        | inr absent ↦ rw (wallet_login-nonces lib text cache crypto env code dto s, absent) refl
      ]
  serve-keeps at nonce (mock p env code dto) s apart = refl
  serve-keeps at nonce (refresh env token) s apart = refl

  run-keeps :
      (at : ℕ) (nonce : String) (qs : List Request) (s : AuthStore cache)
      → All (IsApart nonce) qs
      → is_issued cache at nonce (run lib text cache crypto qs s) ≡ is_issued cache at nonce s
  unfolding run
  run-keeps at nonce [] s apart = refl
  run-keeps at nonce (q ∷ qs) s apart =
      run-keeps at nonce qs (serve lib text cache crypto q s) apart.1
      ∙ serve-keeps at nonce q s apart.0

  -- The tables can take the login: a wallet that is known has its owner, and otherwise the ids that
  -- are given out and the referral code are free.
  abbrev pub IsReady : String → WalletLogin → Store → Type 0
  IsReady code dto a =
      ((w : Wallet) × ((u : User) × ((find_first (is_at lib text dto) a.wallets ≡ some w)
            × (find_first (λ x. x.id == w.user_id) a.users ≡ some u))))
      ⊎ (IsBelow (λ (x : User). x.id) a.next_id a.users
          × (find_first (is_at lib text dto) a.wallets ≡ none)
          × (any (clashes (account_of lib text dto code a.next_id)) a.users ≡ false))

  sign_in-answers :
      (env : Ambient) (code : String) (dto : WalletLogin) (a : Store)
      → IsReady code dto a
      → is_ok (sign_in lib text env code dto a).0 ≡ true
  sign_in-answers env code dto a (inl (w, (u, (at, owner)))) =
      rw (sign_in-known lib text env code dto w u a at owner) refl
  sign_in-answers env code dto a (inr (below, absent, free)) =
      rw (sign_in-new lib text env code dto a below absent free) refl

  -- A challenge leads to a login: within five minutes, whatever else is requested in between with
  -- other nonces, a login with its nonce and a good signature succeeds, and the nonce is spent.
  pub wallet_login-answers :
      (now : ℕ) (nonce : String) (asked : WalletChallenge) (s : AuthStore cache)
      → (qs : List Request) → All (IsApart nonce) qs
      → (env : Ambient) (code : String) (dto : WalletLogin) → dto.nonce ≡ nonce
      → env.now < now + nonce_ttl
      → check_login lib text crypto dto ≡ ok tt
      → let s' = run lib text cache crypto qs (issue_wallet_challenge cache now nonce asked s).1 in
        IsReady code dto s'.accounts
        → (is_ok (wallet_login lib text cache crypto env code dto s').0 ≡ true)
          × IsSpent cache nonce (wallet_login lib text cache crypto env code dto s').1
  wallet_login-answers now nonce asked s qs apart env code dto same early good ready =
      let t = (issue_wallet_challenge cache now nonce asked s).1 in
      let s' = run lib text cache crypto qs t in
      let issued : is_issued cache env.now dto.nonce s' ≡ true =
        ap (λ n. is_issued cache env.now n s') same
        ∙ run-keeps env.now nonce qs t apart
        ∙ (is_issued-issue cache now env.now nonce asked s).0 early in
      let done : is_ok (wallet_login lib text cache crypto env code dto s').0 ≡ true =
        rw (wallet_login_lem lib text cache crypto env code dto s', issued, good)
          (sign_in-answers env code dto s'.accounts ready) in
      (
        done,
        subst (λ n. IsSpent cache n (wallet_login lib text cache crypto env code dto s').1) same
            (ok-IsSpent lib text cache crypto env code dto s' done),
      )
