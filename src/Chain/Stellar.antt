-- ===== src/Chain/Stellar.antt =====
-- apps/api/src/stellar/stellar.service.ts: payments on the network. The Horizon server, the policy of
-- the circuit breaker and JavaScript's numbers are arguments.
pub mod Laws
use pay_era.Prelude.{ℕ, ◌≡◌, Bool, false, String, Result, ok, err, if◌then◌else◌}
use pay_era.Payments.Store.{AssetCode}
use pay_era.Payments.Processor.Services.{SubmitArgs, Submitted}

-- `parseFloat(t) > 0`, and `Math.max(parseFloat(t), 0.0000001).toFixed(7)`.
pub record Amounts : Type 0 where
  pub is_positive : String → Bool
  pub at_least_stroop : String → String

pub data Asset : Type 0 where
  native : Asset
  credit : (code issuer : String) → Asset

-- The one operation of the transaction, and its memo.
pub record PaymentTx : Type 0 where
  pub destination : String
  pub asset : Asset
  pub amount : String
  pub memo : String

-- `policy.execute`: it runs the function, again after an exception, and never gives a result that
-- no run gave. The runs are numbered.
pub record Policy : Type 1 where
  pub execute : {A : Type 0} → (ℕ → Result A) → Result A
  pub execute_ok :
      {A : Type 0} (run : ℕ → Result A) (a : A) → execute run ≡ ok a → (k : ℕ) × (run k ≡ ok a)

pub record Horizon : Type 0 where
  pub load_account : ℕ → String → Result ℕ
  pub submit : ℕ → ℕ → PaymentTx → Result Submitted
  pub is_successful : ℕ → String → Result Bool

abbrev pub usdc_issuer : String
usdc_issuer = "GBBD47IF6LWK7P7MDEVSCWR7DPUWV3NY3DTQEVFL4NAT4AQH3ZLLFLA5"

abbrev pub asset_of : AssetCode → Asset
asset_of AssetCode.xlm = native
asset_of AssetCode.usdc = credit "USDC" usdc_issuer
asset_of AssetCode.eth = credit "USDC" usdc_issuer
asset_of AssetCode.btc = credit "USDC" usdc_issuer
asset_of AssetCode.sol = credit "USDC" usdc_issuer
asset_of AssetCode.inr = credit "USDC" usdc_issuer

module _ (amounts : Amounts) (policy : Policy) (horizon : Horizon) (platform : String)
    (first_28 : String → String) where
  abbrev pub amount_of : String → String
  amount_of text = if amounts.is_positive text then amounts.at_least_stroop text else "0.0000001"

  abbrev pub payment_tx : SubmitArgs → PaymentTx
  payment_tx params = record {
    destination = platform;
    asset = asset_of params.asset_code;
    amount = amount_of params.amount_crypto;
    memo = first_28 params.transaction_public_id;
  }

  -- One run of the function that the policy executes.
  unfoldable pub submit_once : SubmitArgs → ℕ → Result Submitted
  submit_once params run = elim (horizon.load_account run platform) [
    | err e ↦ err e
    | ok account ↦ horizon.submit run account (payment_tx params)
  ]

  unfoldable pub submit_payment : SubmitArgs → Result Submitted
  submit_payment params = policy.execute (submit_once params)

  unfoldable pub get_transaction_status : String → Bool
  get_transaction_status hash = elim (policy.execute (λ run. horizon.is_successful run hash)) [
    | err e ↦ false
    | ok b ↦ b
  ]
