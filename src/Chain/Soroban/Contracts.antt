-- ===== src/Chain/Soroban/Contracts.antt =====
-- The methods of the contracts RewardEngine, StarToken, PaymentEngine and MerchantRegistry that
-- apps/api/src/stellar/soroban.service.ts calls. `uuid` is the text of an id, `units` the UTF-16 code
-- units of a text.
use pay_era.Prelude.{ℕ, Bool, false, Option, none, some, List, [], ◌∷◌, String, Result, ok, err}
use Prim.Native.String
use pay_era.Payments.Store.{AssetCode}
use pay_era.Payments.Processor.Services.{PaymentArgs, QuoteArgs, MintArgs}
use pay_era.Chain.Bytes.{uuid_to_bytes32}
use pay_era.Chain.Soroban.{ScVal, Call, Rpc, Addresses, Labels, labels_of, invoke, hash_only, read}

-- `assetMap[params.asset]`
abbrev pub asset_arg : AssetCode → ScVal
asset_arg AssetCode.eth = ScVal.u32 1
asset_arg AssetCode.btc = ScVal.u32 2
asset_arg AssetCode.sol = ScVal.u32 3
asset_arg AssetCode.xlm = ScVal.u32 4
asset_arg AssetCode.usdc = ScVal.u32 5
asset_arg AssetCode.inr = ScVal.undefined

abbrev pub mint_labels : Labels
mint_labels = record {
  submit_failed = "Soroban submit failed: ";
  failed_on_chain = "STAR mint failed on-chain: ";
  timed_out = "STAR mint timed out: ";
}

-- `registerMerchant`'s parameters.
pub record RegisterArgs : Type 0 where
  pub merchant_id : ℕ
  pub owner : String
  pub upi_id_hash : String
  pub metadata_hash : String

module _ {V : Type 0} (rpc : Rpc V) (at : Addresses) (uuid : ℕ → List ℕ)
    (units : String → List ℕ) where
  abbrev pub id_bytes : ℕ → ScVal
  id_bytes id = ScVal.bytes (uuid_to_bytes32 (uuid id))

  abbrev pub hash_bytes : String → ScVal
  hash_bytes text = ScVal.bytes (uuid_to_bytes32 (units text))

  abbrev pub mint_call : MintArgs → Call
  mint_call params = record {
    contract = at.reward_engine;
    method = "issue_spend_reward";
    arguments =
        id_bytes params.reward_id
        ∷ id_bytes params.user_id
        ∷ ScVal.address params.user_wallet_address
        ∷ ScVal.i128 params.star_amount
        ∷ [];
  }

  unfoldable pub issue_star_reward : ℕ → MintArgs → Result String
  issue_star_reward attempt params =
      hash_only rpc (invoke rpc mint_labels attempt (mint_call params))

  -- `getStarBalance`
  unfoldable pub get_star_balance : ℕ → String → ℕ
  get_star_balance attempt wallet_address =
      elim (read rpc attempt (record {
        contract = at.star_token;
        method = "balance";
        arguments = ScVal.address wallet_address ∷ [];
      })) [ none ↦ 0 | some v ↦ elim (rpc.as_amount v) [ err e ↦ 0 | ok n ↦ n ] ]

  abbrev pub payment_call : PaymentArgs → Call
  payment_call params = record {
    contract = at.payment_engine;
    method = "create_payment";
    arguments =
        ScVal.address at.platform
        ∷ ScVal.address params.payer
        ∷ id_bytes params.payment_id
        ∷ id_bytes params.merchant_id
        ∷ asset_arg params.asset
        ∷ ScVal.i128 params.amount_in_paise
        ∷ hash_bytes params.qr_hash
        ∷ id_bytes params.reward_id
        ∷ [];
  }

  unfoldable pub create_payment : ℕ → PaymentArgs → Result String
  create_payment attempt params =
      hash_only rpc
        (invoke rpc (labels_of "PaymentEngine create_payment") attempt (payment_call params))

  abbrev pub quote_call : QuoteArgs → Call
  quote_call params = record {
    contract = at.payment_engine;
    method = "quote_payment";
    arguments =
        id_bytes params.payment_id
        ∷ ScVal.i128 params.asset_amount
        ∷ ScVal.i128 params.usdc_amount
        ∷ ScVal.i128 params.network_fee_paise
        ∷ [];
  }

  unfoldable pub quote_payment : ℕ → QuoteArgs → Result String
  quote_payment attempt params =
      hash_only rpc
        (invoke rpc (labels_of "PaymentEngine quote_payment") attempt (quote_call params))

  -- A method that takes an id only.
  abbrev pub id_call : String → String → ℕ → Call
  id_call contract method id = record {
    contract = contract;
    method = method;
    arguments = id_bytes id ∷ [];
  }

  unfoldable pub transition_payment_status : ℕ → ℕ → String → Result String
  transition_payment_status attempt payment_id method = hash_only rpc (
      invoke rpc (labels_of (String.◌++◌ "PaymentEngine " method)) attempt
        (id_call at.payment_engine method payment_id))

  unfoldable pub mark_converted : ℕ → ℕ → Result String
  mark_converted attempt payment_id = transition_payment_status attempt payment_id "mark_converted"

  unfoldable pub mark_settled : ℕ → ℕ → Result String
  mark_settled attempt payment_id = transition_payment_status attempt payment_id "mark_settled"

  unfoldable pub complete_payment : ℕ → ℕ → Result String
  complete_payment attempt payment_id =
      transition_payment_status attempt payment_id "complete_payment"

  -- The amount in the contract's answer, and 0 where there is none.
  abbrev pub returned_amount : Option V → ℕ
  returned_amount none = 0
  returned_amount (some v) = elim (rpc.as_amount v) [ err e ↦ 0 | ok n ↦ n ]

  -- `issueRewardOnChain` and `issueReward`
  unfoldable pub issue_reward_on_chain : ℕ → ℕ → Result (String × ℕ)
  issue_reward_on_chain attempt payment_id =
      elim (invoke rpc (labels_of "PaymentEngine issue_reward") attempt
        (id_call at.payment_engine "issue_reward" payment_id)) [
          | err e ↦ err e
          | ok (hash, v) ↦ ok (hash, returned_amount v)
        ]

  abbrev pub register_call : RegisterArgs → Call
  register_call params = record {
    contract = at.merchant_registry;
    method = "register_merchant";
    arguments =
        id_bytes params.merchant_id
        ∷ ScVal.address params.owner
        ∷ hash_bytes params.upi_id_hash
        ∷ hash_bytes params.metadata_hash
        ∷ [];
  }

  unfoldable pub register_merchant : ℕ → RegisterArgs → Result String
  register_merchant attempt params =
      hash_only rpc
        (invoke rpc (labels_of "MerchantRegistry register_merchant") attempt (register_call params))

  unfoldable pub approve_merchant : ℕ → ℕ → Result String
  approve_merchant attempt merchant_id = hash_only rpc (
      invoke rpc (labels_of "MerchantRegistry approve_merchant") attempt
        (id_call at.merchant_registry "approve_merchant" merchant_id))

  unfoldable pub transition_merchant_status : ℕ → ℕ → String → Result String
  transition_merchant_status attempt merchant_id method = hash_only rpc (
      invoke rpc (labels_of (String.◌++◌ "MerchantRegistry " method)) attempt
        (id_call at.merchant_registry method merchant_id))

  unfoldable pub suspend_merchant : ℕ → ℕ → Result String
  suspend_merchant attempt merchant_id =
      transition_merchant_status attempt merchant_id "suspend_merchant"

  unfoldable pub reject_merchant : ℕ → ℕ → Result String
  reject_merchant attempt merchant_id =
      transition_merchant_status attempt merchant_id "reject_merchant"

  unfoldable pub get_merchant : ℕ → ℕ → Option V
  get_merchant attempt merchant_id =
      read rpc attempt (id_call at.merchant_registry "get_merchant" merchant_id)

  unfoldable pub is_merchant_approved : ℕ → ℕ → Bool
  is_merchant_approved attempt merchant_id =
      elim (read rpc attempt (id_call at.merchant_registry "is_approved" merchant_id)) [
        | none ↦ false
        | some v ↦ rpc.is_true v
      ]
