-- ===== src/Auth/Nonces.antt =====
-- `issueWalletChallenge` of apps/api/src/auth/auth.service.ts, and the nonce's check in
-- `walletLogin`. The nonce that `createReadableId` gives is an argument.
pub mod Laws
use pay_era.Prelude.{ℕ, ◌+◌, ◌*◌, some, String, ok, err, Action, unauthorized, if◌then◌else◌, Bool}
use Prim.Native.String
use pay_era.Accounts.Store.{Store, same_text}
use pay_era.Auth.Cache.{CacheManager}

-- `WalletChallengeDto`
pub record WalletChallenge : Type 0 where
  pub provider : String
  pub network : String
  pub address : String

-- The challenge's text.
unfoldable pub challenge_text : String → String → String → String → String
challenge_text network provider address nonce = String.◌++◌ "CryptoPay Network login\nnetwork=" (
    String.◌++◌ network (
      String.◌++◌ "\nprovider=" (
        String.◌++◌ provider
          (String.◌++◌ "\naddress=" (String.◌++◌ address (String.◌++◌ "\nnonce=" nonce))))))

pub record Challenge : Type 0 where
  pub expires_at : ℕ
  pub message : String
  pub nonce : String

abbrev pub nonce_key : String → String
nonce_key nonce = String.◌++◌ "nonce:" nonce

-- `5 * 60 * 1000`
abbrev pub nonce_ttl : ℕ
nonce_ttl = 5 * 60 * 1000

module _ (cache : CacheManager) where
  -- The tables with the cache of nonces.
  pub record AuthStore : Type 0 where
    pub accounts : Store
    pub nonces : cache.State

  unfoldable pub issue_wallet_challenge : ℕ → String → WalletChallenge → Action AuthStore Challenge
  issue_wallet_challenge now nonce dto s = (
    ok (record {
      expires_at = now + nonce_ttl;
      message = challenge_text dto.network dto.provider dto.address nonce;
      nonce = nonce;
    }),
    record s { nonces = cache.set (nonce_key nonce) "issued" nonce_ttl now s.nonces },
  )

  abbrev pub is_issued : ℕ → String → AuthStore → Bool
  is_issued now nonce s = same_text (cache.get (nonce_key nonce) now s.nonces) (some "issued")

  abbrev pub spend : String → AuthStore → AuthStore
  spend nonce s = record s { nonces = cache.del (nonce_key nonce) s.nonces }

  -- The check of the nonce, and its deletion. The exception's text is shortened.
  unfoldable pub claim_nonce : ℕ → String → Action AuthStore (Unit {0})
  claim_nonce now nonce s =
      if is_issued now nonce s
      then (ok tt, spend nonce s)
      else (err (unauthorized "Invalid or expired nonce"), s)
