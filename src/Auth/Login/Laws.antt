-- ===== src/Auth/Login/Laws.antt =====
-- What a wallet's login leads to: accounts, one-time nonces, and when it succeeds.
use pay_era.Prelude.{
  ℕ, ◌≡◌, inl, inr, refl, ◌∙◌, Bool, true, false, String, ok, err, unauthorized, Bool-cases,
  bind_ok, bind_err, if◌then◌else◌,
}
use pay_era.Auth.Cache.{CacheManager}
use pay_era.Auth.Signature.{Crypto}
use pay_era.Auth.Tokens.{Libraries, Ambient}
use pay_era.Auth.Nonces.{AuthStore, is_issued, spend, claim_nonce}
use pay_era.Auth.Login.{WalletLogin, Texts, check_login, finish_login, wallet_login, sign_in}

module _ (lib : Libraries) (text : Texts) (cache : CacheManager) (crypto : Crypto) where
  claim_nonce_lem :
      (now : ℕ) (nonce : String) (s : AuthStore cache) (b : Bool)
      → is_issued cache now nonce s ≡ b
      → claim_nonce cache now nonce s ≡ (
          if b
          then (ok tt, spend cache nonce s)
          else (err (unauthorized "Invalid or expired nonce"), s))
  unfolding claim_nonce
  claim_nonce_lem now nonce s b e = rw e refl

  -- A wallet's login without an issued nonce fails and changes nothing. With one, the nonce is spent
  -- whatever follows; a signature that is refused leaves the tables as they were, and otherwise the
  -- answer and the tables are those of the sign-in.
  pub wallet_login_lem :
      (env : Ambient) (code : String) (dto : WalletLogin) (s : AuthStore cache)
      → wallet_login lib text cache crypto env code dto s ≡ (
          if is_issued cache env.now dto.nonce s
          then elim (check_login lib text crypto dto) [
            | err e ↦ (err e, spend cache dto.nonce s)
            | ok _ ↦
                let (r, a) = sign_in lib text env code dto s.accounts in
                (r, record (spend cache dto.nonce s) { accounts = a })
          ]
          else (err (unauthorized "Invalid or expired nonce"), s))
  unfolding wallet_login finish_login
  wallet_login_lem env code dto s =
      let claim = claim_nonce cache env.now dto.nonce in
      let next = λ (_ : Unit {0}). finish_login lib text cache crypto env code dto in
      elim (Bool-cases (is_issued cache env.now dto.nonce s)) [
        | inl issued ↦
            bind_ok claim next s tt (spend cache dto.nonce s)
              (claim_nonce_lem env.now dto.nonce s true issued)
            ∙ rw issued refl
        | inr absent ↦ rw absent (
            bind_err claim next s (unauthorized "Invalid or expired nonce") s
              (claim_nonce_lem env.now dto.nonce s false absent))
      ]
