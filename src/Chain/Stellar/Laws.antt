-- ===== src/Chain/Stellar/Laws.antt =====
-- What a payment on the network pays, and to whom.
use pay_era.Prelude.{ℕ, ◌≡◌, ◌≢◌, refl, ap, inl, inr, String, ok, arith, Result-cases}
use pay_era.Payments.Store.{AssetCode}
use pay_era.Payments.Processor.Services.{SubmitArgs, Submitted}
use pay_era.Chain.Stellar.{
  native, credit, asset_of, usdc_issuer, Amounts, Policy, Horizon, payment_tx, submit_once,
  submit_payment,
}

other_asset : (a : AssetCode) → a ≢ AssetCode.xlm → asset_of a ≡ credit "USDC" usdc_issuer
other_asset AssetCode.eth h = refl
other_asset AssetCode.btc h = refl
other_asset AssetCode.sol h = refl
other_asset AssetCode.xlm h = absurd (h refl)
other_asset AssetCode.usdc h = refl
other_asset AssetCode.inr h = refl

module _ (amounts : Amounts) (policy : Policy) (horizon : Horizon) (platform : String)
    (first_28 : String → String) where
  submit_once_lem :
      (params : SubmitArgs) (run : ℕ) (r : Submitted)
      → submit_once amounts policy horizon platform first_28 params run ≡ ok r
      → (account : ℕ) × (horizon.submit run account
            (payment_tx amounts policy horizon platform first_28 params)
          ≡ ok r)
  unfolding submit_once
  submit_once_lem params run r h = elim (Result-cases (horizon.load_account run platform)) [
    | inl (account, e) ↦ (account, ground arith)
    | inr (x, e) ↦ ground arith
  ]

  -- A payment that is reported as submitted was taken by Horizon in one of the policy's runs. It goes
  -- from the platform's account to the platform's account, in XLM where the payment's asset is XLM and
  -- in USDC for every other asset.
  pub submit_payment-Sent :
      (params : SubmitArgs) (r : Submitted)
      → submit_payment amounts policy horizon platform first_28 params ≡ ok r
      → let tx = payment_tx amounts policy horizon platform first_28 params in
        ((run : ℕ) × ((account : ℕ) × (horizon.submit run account tx ≡ ok r)))
        × ((tx.destination ≡ platform)
            × ((params.asset_code ≡ AssetCode.xlm → tx.asset ≡ native)
                × (params.asset_code ≢ AssetCode.xlm → tx.asset ≡ credit "USDC" usdc_issuer)))
  unfolding submit_payment
  submit_payment-Sent params r h =
      let (run, done) =
        policy.execute_ok (submit_once amounts policy horizon platform first_28 params) r h in
      (
        (run, submit_once_lem params run r done),
        (refl, (λ e. ap asset_of e, other_asset params.asset_code)),
      )
