-- ===== src/Auth/Login.antt =====
-- `mockLogin`, `issueWalletChallenge` and `walletLogin` of apps/api/src/auth/auth.service.ts. The
-- random parts (the nonce, the referral code, the salt) are arguments.
pub mod SignIn
pub mod Reopening
pub mod Laws
use pay_era.Prelude.{
  ℕ, ◌+◌, ◌*◌, Bool, true, false, not, ◌&&◌, ◌||◌, Option, none, some, List, [], ◌∷◌, String,
  Result, ok, err, Action, bad_request, unauthorized, failure, pure, lift, or_raise, raise_if,
  transaction, ◌>>=◌, ◌>>◌, ◌==◌, str_eq, is_some, or_else, if◌then◌else◌, no_record,
}
use Prim.Native.String
use pay_era.Prelude.Table.{find_first}
use pay_era.Accounts.Store.{
  UserRole, UserStatus, KycStatus, WalletStatus, User, Wallet, AdminLog, Store, update_user,
  insert_user, create_log, same_text,
}
use pay_era.Accounts.Wallets.{normalize_wallet_address, insert_wallet, update_wallet}
use pay_era.Accounts.Users.{CreateUser, normalize_email, normalize_phone, new_user, given}
use pay_era.Auth.Cache.{CacheManager}
use pay_era.Auth.Nonces.{AuthStore, challenge_text, claim_nonce}
use pay_era.Auth.Signature.{Crypto, check_signature}
use pay_era.Auth.Tokens.{Libraries, Tokens, Ambient, generate_tokens}

-- `MockLoginDto`
pub record MockLogin : Type 0 where
  pub email : Option String
  pub phone_e164 : Option String
  pub display_name : Option String
  pub role : Option UserRole

-- `WalletLoginDto`
pub record WalletLogin : Type 0 where
  pub provider : String
  pub network : String
  pub address : String
  pub signature : String
  pub nonce : String
  pub display_name : Option String
  pub role : Option UserRole

pub record LoggedIn : Type 0 where
  pub auth : Tokens
  pub user : User

-- The text functions of JavaScript: `trim`, `toLowerCase`, the first eight characters
-- (`substring(0, 8)`), and the UTF-16 code units of a string.
pub record Texts : Type 0 where
  pub trim : String → String
  pub to_lower_case : String → String
  pub first_eight : String → String
  pub units : String → List ℕ

abbrev pub is_pending_onboarding : UserStatus → Bool
is_pending_onboarding UserStatus.pending_onboarding = true
is_pending_onboarding UserStatus.active = false
is_pending_onboarding UserStatus.suspended = false
is_pending_onboarding UserStatus.deleted = false

abbrev pub login_log : ℕ → String → List (String × String) → AdminLog
login_log id action metadata = record {
  actor_user_id = some id;
  action = action;
  target_type = "USER";
  target_id = id;
  metadata = metadata;
}

module _ (lib : Libraries) (text : Texts) where
  -- The `where` of `mockLogin`.
  abbrev pub is_named : MockLogin → User → Bool
  is_named dto u =
      not (is_some u.deleted_at)
      && (same_text (normalize_email text.trim text.to_lower_case dto.email) u.email_normalized
          || same_text (normalize_phone text.trim text.to_lower_case dto.phone_e164) u.phone_e164)

  abbrev pub as_create : MockLogin → CreateUser
  as_create dto = record {
    email = dto.email;
    phone_e164 = dto.phone_e164;
    display_name = dto.display_name;
    role = dto.role;
    status = some UserStatus.active;
  }

  abbrev pub set_seen : ℕ → MockLogin → User → User
  set_seen now dto u = record u {
    display_name = given dto.display_name u.display_name;
    last_login_at = some now;
    status = if is_pending_onboarding u.status then UserStatus.active else u.status;
  }

  unfoldable pub find_or_create : Ambient → String → MockLogin → Action Store User
  find_or_create env referral_code dto s = elim (find_first (is_named dto) s.users) [
    | none ↦ insert_user (new_user text.trim text.to_lower_case (as_create dto) referral_code) s
    | some u ↦ update_user u.id (set_seen env.now dto) s
  ]

  -- `mockLogin`; `production` is the test of `NODE_ENV`.
  unfoldable pub mock_login : Bool → Ambient → String → MockLogin → Action Store LoggedIn
  mock_login production env referral_code dto = do
    raise_if production (bad_request "Mock login is disabled in production")
    raise_if (not (is_some dto.email) && not (is_some dto.phone_e164))
        (bad_request "Either email or phoneE164 is required")
    user ← find_or_create env referral_code dto
    tokens ← generate_tokens lib env user.id user.role
    create_log (login_log user.id "USER_LOGIN_MOCK" (("method", "MOCK") ∷ []))
    pure (record { auth = tokens; user = user })

  abbrev pub wallet_log : ℕ → WalletLogin → AdminLog
  wallet_log id dto = login_log id "USER_LOGIN" (
      ("method", "WALLET")
      ∷ ("network", dto.network)
      ∷ ("provider", dto.provider)
      ∷ ("address", String.◌++◌ (text.first_eight dto.address) "...")
      ∷ [])

  abbrev pub is_at : WalletLogin → Wallet → Bool
  is_at dto w =
      str_eq w.network dto.network
      && str_eq w.address_normalized
          (normalize_wallet_address text.trim text.to_lower_case dto.address)

  abbrev pub set_logged_in : ℕ → User → User
  set_logged_in now u = record u { last_login_at = some now; status = UserStatus.active }

  abbrev pub set_used : ℕ → Wallet → Wallet
  set_used now w = record w { last_used_at = some now; status = WalletStatus.active }

  abbrev pub account_of : WalletLogin → String → ℕ → User
  account_of dto referral_code id = record {
    id = id;
    email = none;
    email_normalized = none;
    phone_e164 = none;
    display_name = dto.display_name;
    role = or_else dto.role UserRole.consumer;
    status = UserStatus.active;
    referral_code = some referral_code;
    kyc_status = KycStatus.unstarted;
    kyc_reference = none;
    kyc_verified_at = none;
    hashed_refresh_token = none;
    last_login_at = none;
    deleted_at = none;
  }

  abbrev pub wallet_of : WalletLogin → ℕ → ℕ → ℕ → Wallet
  wallet_of dto now user_id id = record {
    id = id;
    user_id = user_id;
    address = dto.address;
    address_normalized = normalize_wallet_address text.trim text.to_lower_case dto.address;
    network = dto.network;
    provider = dto.provider;
    label = none;
    public_key = none;
    metadata = "{}";
    is_primary = true;
    status = WalletStatus.active;
    verified_at = some now;
    last_used_at = some now;
  }

  -- The login of the owner of a wallet that is known.
  unfoldable pub return_user : Ambient → Wallet → Action Store User
  return_user env wallet = do
    user ← update_user wallet.user_id (set_logged_in env.now)
    update_wallet wallet.id (set_used env.now)
    pure user

  -- The wallet of a new user.
  unfoldable pub add_wallet : Ambient → WalletLogin → User → Action Store User
  add_wallet env dto user = insert_wallet (wallet_of dto env.now user.id) >> pure user

  -- `user.create` with its wallet, in one database transaction. The wallet that is read back
  -- afterwards is part of the answer only.
  unfoldable pub open_account : Ambient → String → WalletLogin → Action Store User
  open_account env referral_code dto =
      transaction (insert_user (account_of dto referral_code) >>= add_wallet env dto)

  -- The user that a wallet's login is for.
  unfoldable pub find_account : Ambient → String → WalletLogin → Action Store User
  find_account env referral_code dto s = elim (find_first (is_at dto) s.wallets) [
    | none ↦ open_account env referral_code dto s
    | some wallet ↦ return_user env wallet s
  ]

  unfoldable pub issue_login : Ambient → WalletLogin → User → Action Store LoggedIn
  issue_login env dto user = do
    tokens ← generate_tokens lib env user.id user.role
    create_log (wallet_log user.id dto)
    pure (record { auth = tokens; user = user })

  -- `walletLogin` after its checks. Of the answer, the tokens and the user.
  unfoldable pub sign_in : Ambient → String → WalletLogin → Action Store LoggedIn
  sign_in env referral_code dto = find_account env referral_code dto >>= issue_login env dto

  unfoldable pub check_login : Crypto → WalletLogin → Result (Unit {0})
  check_login crypto dto =
      check_signature crypto (text.units dto.address) (text.units dto.signature)
        (text.units (challenge_text dto.network dto.provider dto.address dto.nonce))

  module _ (cache : CacheManager) (crypto : Crypto) where
    -- A call that touches the tables only.
    abbrev pub on_accounts : {A : Type 0} → Action Store A → Action (AuthStore cache) A
    on_accounts m s = let (r, a) = m s.accounts in (r, record s { accounts = a })

    -- `walletLogin` after the nonce is claimed.
    unfoldable pub finish_login : Ambient → String → WalletLogin → Action (AuthStore cache) LoggedIn
    finish_login env referral_code dto s = elim (check_login crypto dto) [
      | err e ↦ (err e, s)
      | ok _ ↦ on_accounts (sign_in env referral_code dto) s
    ]

    unfoldable pub wallet_login : Ambient → String → WalletLogin → Action (AuthStore cache) LoggedIn
    wallet_login env referral_code dto =
        claim_nonce cache env.now dto.nonce >> finish_login env referral_code dto
