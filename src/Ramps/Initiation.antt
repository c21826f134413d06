-- ===== src/Ramps/Initiation.antt =====
-- apps/api/src/ramps/ramps.service.ts: initiating a ramp. What the outside decides is an argument:
-- the clock, the random part of the public id, the provider's answers (Ramps/Provider) and the
-- caller's KYC status.
pub mod Laws
pub mod Gate
use pay_era.Prelude.{
  ℕ, suc, ◌+◌, ◌-◌, ◌*◌, min, max, Bool, true, false, not, ◌&&◌, Option, none, some, List, [], ◌∷◌,
  map, String, Result, ok, err, Action, Exception, bad_request, forbidden, not_found, message, pure,
  raise, lift, or_raise, raise_if, try_catch, gets, ◌>>=◌, ◌>>◌, ◌==◌, str_eq, if◌then◌else◌,
  filter, length, take, drop,
}
use Prim.Native.String
use pay_era.Prelude.Table.{find_first}
use pay_era.Accounts.Store.{KycStatus, kyc_name}
use pay_era.Accounts.Kyc.{truthy}
use pay_era.Ramps.Status.{RampStatus, RampType, is_terminal, same_status}
use pay_era.Ramps.Provider.{InitiateParams, InitiateResult, StatusResult, Provider, Registry, get}
use pay_era.Ramps.Retry.{with_retry}
use pay_era.Ramps.Store.{Ramp, Payload, Store, find_ramp, create_ramp, update_ramp, append_event}

-- `InitiateArgs`
pub record InitiateArgs : Type 0 where
  pub user_id : ℕ
  pub provider_id : String
  pub user_stellar_address : String
  pub amount : Option String
  pub asset_code : Option String

-- What `initiate` returns.
pub record Initiated : Type 0 where
  pub id : String
  pub provider : String
  pub type : RampType
  pub status : RampStatus
  pub interactive_url : Option String
  pub provider_tx_id : Option String

-- The clock, and the random part of the public id.
pub record Ambient : Type 0 where
  pub now : ℕ
  pub nonce : String

abbrev pub is_verified : KycStatus → Bool
is_verified KycStatus.verified = true
is_verified KycStatus.unstarted = false
is_verified KycStatus.pending = false
is_verified KycStatus.rejected = false

infixr 65 ◌<>◌
abbrev pub ◌<>◌ : String → String → String
a <> b = String.◌++◌ a b

-- `assertKycVerified`, with the status that the KYC service reports.
abbrev pub assert_kyc_verified : Result KycStatus → Action Store (Unit {0})
assert_kyc_verified kyc = do
  status ← lift kyc
  raise_if (not (is_verified status)) (
      forbidden
        ("KYC verification required to use fiat ramps (current status: " <> kyc_name status <> ")"))

-- `args.assetCode || 'USDC'`
abbrev pub asset_or_usdc : Option String → String
asset_or_usdc none = "USDC"
asset_or_usdc (some c) = if str_eq c "" then "USDC" else c

abbrev pub prefix : RampType → String
prefix RampType.onramp = "ONRAMP"
prefix RampType.offramp = "OFFRAMP"

abbrev pub new_ramp : RampType → Provider → InitiateArgs → Ambient → ℕ → Ramp
new_ramp type provider args env id = record {
  id = id;
  public_id = prefix type <> "_" <> env.nonce;
  user_id = args.user_id;
  provider = provider.id;
  type = type;
  status = RampStatus.initiated;
  user_stellar_address = args.user_stellar_address;
  asset_code = asset_or_usdc args.asset_code;
  amount_in = args.amount;
  amount_out = none;
  amount_fee = none;
  provider_tx_id = none;
  interactive_url = none;
  reference_number = none;
  stellar_memo = none;
  stellar_memo_type = none;
  anchor_account = none;
  stellar_tx_hash = none;
  failure_code = none;
  failure_message = none;
  created_at = env.now;
  completed_at = none;
  last_polled_at = none;
}

abbrev pub params_of : InitiateArgs → InitiateParams
params_of args = record {
  user_stellar_address = args.user_stellar_address;
  amount = args.amount;
  asset_code = args.asset_code;
}

abbrev pub initiate_call : RampType → Provider → ℕ → String → InitiateParams → Result InitiateResult
initiate_call RampType.onramp provider = provider.initiate_on_ramp
initiate_call RampType.offramp provider = provider.initiate_off_ramp

abbrev pub view : Ramp → Initiated
view r = record {
  id = r.public_id;
  provider = r.provider;
  type = r.type;
  status = r.status;
  interactive_url = r.interactive_url;
  provider_tx_id = r.provider_tx_id;
}

abbrev pub set_initiated : InitiateResult → Ramp → Ramp
set_initiated result r = record r {
  provider_tx_id = some result.provider_tx_id;
  interactive_url = some result.interactive_url;
  status = RampStatus.pending_user_transfer;
}

abbrev pub set_failed : Exception → Ramp → Ramp
set_failed e r = record r {
  status = RampStatus.error;
  failure_code = some "INITIATION_FAILED";
  failure_message = some (message e);
}

-- The body of the `try` in `initiate`.
abbrev pub contact : RampType → Provider → InitiateArgs → ℕ → Action Store Initiated
contact type provider args id = do
  token ← lift (with_retry (λ k. provider.authenticate k args.user_stellar_address) 3).outcome
  result ← lift (with_retry (λ k. initiate_call type provider k token (params_of args)) 3).outcome
  updated ← update_ramp id (set_initiated result)
  append_event id (some RampStatus.pending_user_transfer) "ramp.initiated" "system"
      (Payload.initiated result.provider_tx_id)
  pure (view updated)

-- Its `catch`.
abbrev pub give_up : ℕ → Exception → Action Store Initiated
give_up id e = do
  update_ramp id (set_failed e)
  append_event id (some RampStatus.error) "ramp.initiation_failed" "system"
      (Payload.failed (message e))
  raise e

unfoldable pub initiate : RampType → Provider → InitiateArgs → Ambient → Action Store Initiated
initiate type provider args env = do
  ramp ← create_ramp (new_ramp type provider args env)
  append_event ramp.id (some RampStatus.initiated) "ramp.created" "system"
      (Payload.created type provider.id)
  try_catch (contact type provider args ramp.id) (give_up ramp.id)

unfoldable pub initiate_on_ramp :
    Registry → Result KycStatus → InitiateArgs → Ambient → Action Store Initiated
initiate_on_ramp registry kyc args env = do
  assert_kyc_verified kyc
  provider ← lift (get args.provider_id registry)
  raise_if (not provider.supports_on_ramp)
      (bad_request ("Provider " <> args.provider_id <> " does not support on-ramp"))
  initiate RampType.onramp provider args env

unfoldable pub initiate_off_ramp :
    Registry → Result KycStatus → InitiateArgs → Ambient → Action Store Initiated
initiate_off_ramp registry kyc args env = do
  assert_kyc_verified kyc
  provider ← lift (get args.provider_id registry)
  raise_if (not provider.supports_off_ramp)
      (bad_request ("Provider " <> args.provider_id <> " does not support off-ramp"))
  raise_if (not (truthy args.amount)) (bad_request "Off-ramp requires an amount")
  initiate RampType.offramp provider args env
