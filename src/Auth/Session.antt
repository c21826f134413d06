-- ===== src/Auth/Session.antt =====
-- Sequences of the requests to apps/api/src/auth/auth.service.ts that write, each with what the
-- clock and the random generators give it.
pub mod Laws
pub mod Answers
use pay_era.Prelude.{
  ℕ, ◌≡◌, ◌≢◌, ◌⊎◌, inl, inr, refl, Bool, true, false, List, [], ◌∷◌, String, Result, ok, err,
  Result-cases,
}
use pay_era.Accounts.Store.{Store}
use pay_era.Auth.Cache.{CacheManager}
use pay_era.Auth.Signature.{Crypto}
use pay_era.Auth.Tokens.{Libraries, Ambient, refresh_token}
use pay_era.Auth.Nonces.{AuthStore, WalletChallenge, issue_wallet_challenge}
use pay_era.Auth.Login.{MockLogin, WalletLogin, Texts, mock_login, wallet_login}

pub data Request : Type 0 where
  challenge : ℕ → String → WalletChallenge → Request
  wallet : Ambient → String → WalletLogin → Request
  mock : Bool → Ambient → String → MockLogin → Request
  refresh : Ambient → String → Request

module _ (lib : Libraries) (text : Texts) (cache : CacheManager) (crypto : Crypto) where
  -- The state after one request.
  unfoldable pub serve : Request → AuthStore cache → AuthStore cache
  serve (challenge now nonce dto) s = (issue_wallet_challenge cache now nonce dto s).1
  serve (wallet env code dto) s = (wallet_login lib text cache crypto env code dto s).1
  serve (mock production env code dto) s = record s {
    accounts = (mock_login lib text production env code dto s.accounts).1;
  }
  serve (refresh env token) s = record s { accounts = (refresh_token lib env token s.accounts).1 }

  unfoldable pub run : List Request → AuthStore cache → AuthStore cache
  run [] s = s
  run (q ∷ qs) s = run qs (serve q s)
