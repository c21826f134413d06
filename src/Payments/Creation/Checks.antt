-- ===== src/Payments/Creation/Checks.antt =====
-- What creating a payment writes, and when it is refused.
use pay_era.Prelude.{
  ℕ, ◌≡◌, ◌≢◌, refl, ◌⊎◌, inl, inr, true, false, Option, none, some, String, ok, is_ok, arith, ◌==◌,
  Bool-cases, Option-cases, Result-cases, is_some, not, ◌&&◌,
}
use pay_era.Prelude.Table.{find_first}
use pay_era.Accounts.Store.{Principal}
use pay_era.Payments.Store.{AssetCode, MerchantStatus, Merchant, Store, find_merchant}
use pay_era.Payments.Rates.{Numbers, Quote, create_quote}
use pay_era.Payments.Creation.{
  CreateTransaction, is_approved, assert_wallet_access, check_wallet, Ambient, Checked, check,
  payload_hash, active_qr, vpa_of,
}

-- The wallet check never writes.
check_wallet-pure :
    (user : Principal) (id? : Option ℕ) (s : Store) → (check_wallet user id? s).1 ≡ s
unfolding assert_wallet_access
check_wallet-pure user none s = refl
check_wallet-pure user (some id) s = elim (Option-cases (find_first (λ w. w.id == id) s.wallets)) [
  | inl missing ↦ ground arith
  | inr (w, found) ↦ ground arith
]

approved_eq : (m : MerchantStatus) → is_approved m ≡ true → m ≡ MerchantStatus.approved
approved_eq MerchantStatus.approved e = refl
approved_eq _ e = cc

module _ (num : Numbers) (sha256_hex : String → String) (user : Principal) (dto : CreateTransaction)
    (env : Ambient num sha256_hex) (s : Store) where
  crypto_of :
      (quote : Quote num)
      → create_quote num env.now env.rates dto.asset_in dto.amount_in_paise ≡ ok quote
      → dto.asset_in ≢ AssetCode.inr
  unfolding create_quote
  crypto_of quote e same = ground arith

  -- What the checks have established when they pass.
  pub record Passed (c : Checked num sha256_hex) : Type 0 where
    pub merchant : Merchant
    pub found : find_merchant dto.merchant_id s.merchants ≡ some merchant
    pub approved : merchant.status ≡ MerchantStatus.approved
    pub wallet : (check_wallet user dto.wallet_id s).0 ≡ ok tt
    pub payee :
        vpa_of dto (active_qr merchant.id dto.merchant_qr_code_id s.qr_codes) merchant ≡ some c.vpa
    pub code :
        is_some dto.merchant_qr_code_id ≡ true
        → is_some (active_qr merchant.id dto.merchant_qr_code_id s.qr_codes) ≡ true
    pub crypto : dto.asset_in ≢ AssetCode.inr
    pub quoted : create_quote num env.now env.rates dto.asset_in dto.amount_in_paise ≡ ok c.quote

  abbrev pub Outcome : Type 0
  Outcome =
      ((is_ok (check num sha256_hex user dto env s).0 ≡ false)
        × ((check num sha256_hex user dto env s).1 ≡ s))
      ⊎ ((c : Checked num sha256_hex) × (check num sha256_hex user dto env s ≡ (ok c, s))
          × Passed c)

  -- Behind the checks of the merchant and the wallet.
  check_payee :
      (m : Merchant)
      → find_merchant dto.merchant_id s.merchants ≡ some m
      → is_approved m.status ≡ true
      → check_wallet user dto.wallet_id s ≡ (ok tt, s)
      → Outcome
  unfolding check
  check_payee m found approved wallet =
      let qr = active_qr m.id dto.merchant_qr_code_id s.qr_codes in
      elim (Option-cases (vpa_of dto qr m)) [
        | inl nobody ↦ inl (ground arith, ground arith)
        | inr (vpa, payee) ↦
            elim (Result-cases
              (create_quote num env.now env.rates dto.asset_in dto.amount_in_paise)) [
                | inr (e, refused) ↦ inl (ground arith, ground arith)
                | inl (quote, quoted) ↦
                    elim (Bool-cases (is_some dto.merchant_qr_code_id && not (is_some qr))) [
                      | inl inactive ↦ inl (ground arith, ground arith)
                      | inr active ↦ inr (
                        record {
                          hash = payload_hash num sha256_hex dto qr;
                          vpa = vpa;
                          quote = quote;
                        },
                        ground arith,
                        record {
                          merchant = m;
                          found = found;
                          approved = approved_eq m.status approved;
                          wallet = ground arith;
                          payee = payee;
                          code = ground arith;
                          crypto = crypto_of quote quoted;
                          quoted = quoted;
                        },
                      )
                    ]
              ]
      ]

  -- The checks write nothing, and what passes them has passed each of them.
  pub check_cases : Outcome
  unfolding check
  check_cases = elim (Option-cases (find_merchant dto.merchant_id s.merchants)) [
    | inl missing ↦ inl (ground arith, ground arith)
    | inr (m, found) ↦ elim (Bool-cases (is_approved m.status)) [
      | inr closed ↦ inl (ground arith, ground arith)
      | inl approved ↦ elim (Result-cases (check_wallet user dto.wallet_id s).0) [
        | inr (e, barred) ↦
            let same = check_wallet-pure user dto.wallet_id s in inl (ground arith, ground arith)
        | inl (u, own) ↦
            let same = check_wallet-pure user dto.wallet_id s in
            let wallet : check_wallet user dto.wallet_id s ≡ (ok tt, s) = ground arith in
            check_payee m found approved wallet
      ]
    ]
  ]
