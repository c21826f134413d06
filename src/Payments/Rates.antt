-- ===== src/Payments/Rates.antt =====
-- Exchange rates and quotes: `getLiveRates` and `createQuote` of
-- apps/api/src/transactions/transactions.service.ts. JavaScript's numbers are a parameter.
pub mod Laws
use pay_era.Prelude.{
  ℕ, ◌+◌, ◌*◌, Bool, true, false, ◌&&◌, Option, none, some, String, Result, ok, err, bad_request,
  ltb, if◌then◌else◌, is_some,
}
use pay_era.Common.Rewards.{calculate_spend_reward_star}
use pay_era.Payments.Store.{AssetCode}

-- The floating-point numbers that the services compute with. `is_truthy` is false for 0 and
-- NaN, and `rounded` is `BigInt(Math.round(x))`, which throws where `x` is not finite.
pub record Numbers : Type 1 where
  pub Number : Type 0
  pub of_nat : ℕ → Number
  pub parse : String → Number
  pub div : Number → Number → Number
  pub mul : Number → Number → Number
  pub rounded : Number → Option ℕ
  pub to_fixed : Number → ℕ → String
  pub is_truthy : Number → Bool

module _ (num : Numbers) where
  open num use {Number, of_nat, div, to_fixed, is_truthy}

  -- `Record<AssetCode, number>`
  pub record Rates : Type 0 where
    pub xlm : Number
    pub usdc : Number
    pub btc : Number
    pub eth : Number
    pub sol : Number
    pub inr : Number

  -- The answer of CoinGecko: `data[coin]?.inr` for each coin.
  pub record Prices : Type 0 where
    pub stellar : Option Number
    pub usd_coin : Option Number
    pub bitcoin : Option Number
    pub ethereum : Option Number
    pub solana : Option Number

  -- `rateCache` (`none` while it has no keys) and `rateCacheTime`.
  pub record RateCache : Type 0 where
    pub rates : Option Rates
    pub time : ℕ

  -- `price || fallback`
  abbrev pub price_or : Option Number → ℕ → Number
  price_or none fallback = of_nat fallback
  price_or (some p) fallback = if is_truthy p then p else of_nat fallback

  abbrev pub fetched_rates : Prices → Rates
  fetched_rates p = record {
    xlm = price_or p.stellar 9;
    usdc = price_or p.usd_coin 83;
    btc = price_or p.bitcoin 9_000_000;
    eth = price_or p.ethereum 300_000;
    sol = price_or p.solana 14_000;
    inr = of_nat 1;
  }

  abbrev pub static_rates : Rates
  static_rates = record {
    xlm = of_nat 9;
    usdc = of_nat 83;
    btc = of_nat 9_000_000;
    eth = of_nat 300_000;
    sol = of_nat 14_000;
    inr = of_nat 1;
  }

  -- Behind the check of the cache. `fetched` is how the guarded request ends.
  abbrev pub refresh_rates : ℕ → Result Prices → RateCache → Rates × RateCache
  refresh_rates now (ok prices) cache =
      (fetched_rates prices, record { rates = some (fetched_rates prices); time = now })
  refresh_rates now (err e) cache = elim cache.rates [
    | some old ↦ (old, cache)
    | none ↦ (static_rates, record { rates = some static_rates; time = cache.time })
  ]

  -- `getLiveRates`; `now - rateCacheTime < 60_000` is written without subtraction.
  unfoldable pub get_live_rates : ℕ → Result Prices → RateCache → Rates × RateCache
  get_live_rates now fetched cache = elim cache.rates [
    | some old ↦
        if ltb now (cache.time + 60_000) then (old, cache) else refresh_rates now fetched cache
    | none ↦ refresh_rates now fetched cache
  ]

  abbrev pub rate_of : Rates → AssetCode → Number
  rate_of r AssetCode.xlm = r.xlm
  rate_of r AssetCode.usdc = r.usdc
  rate_of r AssetCode.btc = r.btc
  rate_of r AssetCode.eth = r.eth
  rate_of r AssetCode.sol = r.sol
  rate_of r AssetCode.inr = r.inr

  abbrev pub is_inr : AssetCode → Bool
  is_inr AssetCode.inr = true
  is_inr AssetCode.xlm = false
  is_inr AssetCode.usdc = false
  is_inr AssetCode.btc = false
  is_inr AssetCode.eth = false
  is_inr AssetCode.sol = false

  pub record Quote : Type 0 where
    pub amount_in_crypto : String
    pub amount_in_paise : ℕ
    pub asset_in : AssetCode
    pub expires_at : ℕ
    pub network_fee_paise : ℕ
    pub quote_rate_inr_per_asset : String
    pub star_reward : ℕ
    pub usdc_amount : String

  -- `createQuote`, with the rates that `getLiveRates` gives.
  unfoldable pub create_quote : ℕ → Rates → AssetCode → ℕ → Result Quote
  create_quote now rates asset amount =
      let amount_inr = div (of_nat amount) (of_nat 100) in
      if is_inr asset
      then err (bad_request "assetIn must be a crypto asset")
      else ok (record {
        amount_in_crypto = to_fixed (div amount_inr (rate_of rates asset)) 18;
        amount_in_paise = amount;
        asset_in = asset;
        expires_at = now + 30 * 1000;
        network_fee_paise = 0;
        quote_rate_inr_per_asset = to_fixed (rate_of rates asset) 18;
        star_reward = calculate_spend_reward_star amount;
        usdc_amount = to_fixed (div amount_inr rates.usdc) 18;
      })
