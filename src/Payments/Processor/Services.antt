-- ===== src/Payments/Processor/Services.antt =====
-- What the processor of payments calls on the contract (SorobanService), on Stellar
-- (StellarService), for payouts (SettlementService) and for the price of USDC:
-- apps/api/src/transaction-processor/transaction-processor.service.ts.
-- `attempt`, the first argument of a call, tells repeated calls apart.
use pay_era.Prelude.{ℕ, Option, String, Result}
use pay_era.Payments.Store.{AssetCode}
use pay_era.Payments.Rates.{Numbers}

pub record PaymentArgs : Type 0 where
  pub payment_id : ℕ
  pub payer : String
  pub merchant_id : ℕ
  pub asset : AssetCode
  pub amount_in_paise : ℕ
  pub qr_hash : String
  pub reward_id : ℕ

pub record QuoteArgs : Type 0 where
  pub payment_id : ℕ
  pub asset_amount : ℕ
  pub usdc_amount : ℕ
  pub network_fee_paise : ℕ

pub record SubmitArgs : Type 0 where
  pub transaction_public_id : String
  pub asset_code : AssetCode
  pub amount_crypto : String

pub record Submitted : Type 0 where
  pub hash : String
  pub ledger : ℕ

pub record PayoutArgs : Type 0 where
  pub reference_id : String
  pub amount_paise : ℕ
  pub merchant_upi_vpa : String
  pub merchant_name : String
  pub purpose : String

pub record Payout : Type 0 where
  pub transaction_id : String
  pub status : String

pub record MintArgs : Type 0 where
  pub reward_id : ℕ
  pub user_id : ℕ
  pub user_wallet_address : String
  pub star_amount : ℕ

module _ (num : Numbers) where
  -- The calls of `SorobanService`, `StellarService` and `SettlementService`, and the price of USDC
  -- (`none` where CoinGecko's answer has none).
  pub record Services : Type 0 where
    pub create_payment : ℕ → PaymentArgs → Result (Unit {0})
    pub quote_payment : ℕ → QuoteArgs → Result (Unit {0})
    pub mark_converted : ℕ → ℕ → Result (Unit {0})
    pub submit_payment : ℕ → SubmitArgs → Result Submitted
    pub mark_settled : ℕ → ℕ → Result (Unit {0})
    pub initiate_upi_payout : ℕ → PayoutArgs → Result Payout
    pub issue_star_reward : ℕ → MintArgs → Result String
    pub complete_payment : ℕ → ℕ → Result (Unit {0})
    pub usdc_price : ℕ → ℕ → Result (Option num.Number)
