-- ===== src/Auth/Session/Laws.antt =====
-- A nonce is good for one login.
use pay_era.Prelude.{
  ◌≡◌, ◌≢◌, inl, inr, refl, ap, ◌∙◌, true, List, [], ◌∷◌, String, err, unauthorized, arith,
  Bool-cases, Result-cases, is_ok, All, if◌then◌else◌,
}
use pay_era.Auth.Cache.{CacheManager}
use pay_era.Auth.Signature.{Crypto}
use pay_era.Auth.Tokens.{Libraries, Ambient}
use pay_era.Auth.Nonces.{AuthStore, is_issued, spend}
use pay_era.Auth.Nonces.Laws.{IsSpent, spend-IsSpent, spend-keeps, is_issued-issue_other}
use pay_era.Auth.Login.{WalletLogin, Texts, check_login, wallet_login}
use pay_era.Auth.Login.Laws.{wallet_login_lem}
use pay_era.Auth.Session.{Request, challenge, wallet, mock, refresh, serve, run}

-- The request does not issue the nonce.
abbrev pub IsSilent : String → Request → Type 0
IsSilent nonce (challenge _ n _) = nonce ≢ n
IsSilent nonce (wallet _ _ _) = Unit
IsSilent nonce (mock _ _ _ _) = Unit
IsSilent nonce (refresh _ _) = Unit

module _ (lib : Libraries) (text : Texts) (cache : CacheManager) (crypto : Crypto) where
  -- The nonces after a wallet's login.
  pub wallet_login-nonces :
      (env : Ambient) (code : String) (dto : WalletLogin) (s : AuthStore cache)
      → (wallet_login lib text cache crypto env code dto s).1.nonces ≡ (
          if is_issued cache env.now dto.nonce s
          then (spend cache dto.nonce s).nonces
          else s.nonces)
  wallet_login-nonces env code dto s = elim (Bool-cases (is_issued cache env.now dto.nonce s)) [
    | inl issued ↦ elim (Result-cases (check_login lib text crypto dto)) [
      | inl (_, good) ↦
          rw (wallet_login_lem lib text cache crypto env code dto s, issued, good) refl
      | inr (e, bad) ↦ rw (wallet_login_lem lib text cache crypto env code dto s, issued, bad) refl
    ]
    | inr absent ↦ rw (wallet_login_lem lib text cache crypto env code dto s, absent) refl
  ]

  serve-IsSpent :
      (nonce : String) (q : Request) (s : AuthStore cache)
      → IsSilent nonce q
      → IsSpent cache nonce s
      → IsSpent cache nonce (serve lib text cache crypto q s)
  unfolding serve
  serve-IsSpent nonce (challenge now n dto) s apart h =
      λ at. is_issued-issue_other cache at now nonce n dto s apart ∙ h at
  serve-IsSpent nonce (wallet env code dto) s apart h =
      elim (Bool-cases (is_issued cache env.now dto.nonce s)) [
        | inl issued ↦ λ at.
            rw (wallet_login-nonces env code dto s, issued)
              (spend-keeps cache nonce dto.nonce s h at)
        | inr absent ↦ λ at. rw (wallet_login-nonces env code dto s, absent) (h at)
      ]
  serve-IsSpent nonce (mock p env code dto) s apart h = h
  serve-IsSpent nonce (refresh env token) s apart h = h

  run-IsSpent :
      (nonce : String) (qs : List Request) (s : AuthStore cache)
      → All (IsSilent nonce) qs
      → IsSpent cache nonce s
      → IsSpent cache nonce (run lib text cache crypto qs s)
  unfolding run
  run-IsSpent nonce [] s silent h = h
  run-IsSpent nonce (q ∷ qs) s silent h =
      run-IsSpent nonce qs (serve lib text cache crypto q s) silent.1
        (serve-IsSpent nonce q s silent.0 h)

  pub ok-IsSpent :
      (env : Ambient) (code : String) (dto : WalletLogin) (s : AuthStore cache)
      → is_ok (wallet_login lib text cache crypto env code dto s).0 ≡ true
      → IsSpent cache dto.nonce (wallet_login lib text cache crypto env code dto s).1
  ok-IsSpent env code dto s done at = elim (Bool-cases (is_issued cache env.now dto.nonce s)) [
    | inl issued ↦
        rw (wallet_login-nonces env code dto s, issued) (spend-IsSpent cache dto.nonce s at)
    | inr absent ↦ ground (arith, wallet_login_lem lib text cache crypto env code dto s)
  ]

  -- A login that succeeded used its nonce up: whatever is requested afterwards, as long as no
  -- challenge issues the same nonce again, a login with it fails and changes nothing.
  pub wallet_login-once :
      (env : Ambient) (code : String) (dto : WalletLogin) (s : AuthStore cache)
      → is_ok (wallet_login lib text cache crypto env code dto s).0 ≡ true
      → (qs : List Request) → All (IsSilent dto.nonce) qs
      → (env' : Ambient) (code' : String) (dto' : WalletLogin) → dto'.nonce ≡ dto.nonce
      → let s' =
          run lib text cache crypto qs (wallet_login lib text cache crypto env code dto s).1 in
        wallet_login lib text cache crypto env' code' dto' s'
        ≡ (err (unauthorized "Invalid or expired nonce"), s')
  wallet_login-once env code dto s done qs silent env' code' dto' same =
      let t = (wallet_login lib text cache crypto env code dto s).1 in
      let s' = run lib text cache crypto qs t in
      let gone : IsSpent cache dto.nonce s' =
        run-IsSpent dto.nonce qs t silent (ok-IsSpent env code dto s done) in
      rw
        (
          wallet_login_lem lib text cache crypto env' code' dto' s',
          ap (λ n. is_issued cache env'.now n s') same ∙ gone env'.now,
        )
        refl
