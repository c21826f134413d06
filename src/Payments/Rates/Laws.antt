-- ===== src/Payments/Rates/Laws.antt =====
-- Where the rates of a quote come from, and which values they have.
use pay_era.Prelude.{
  ℕ, ◌+◌, ◌<◌, ◌≡◌, refl, true, Option, none, some, Result, ok, err, arith, ltb, Bool-cases,
  Option-cases, inl, inr, ◌⊎◌,
}
use pay_era.Payments.Store.{AssetCode}
use pay_era.Payments.Rates.{
  Numbers, Rates, Prices, RateCache, price_or, fetched_rates, static_rates, refresh_rates,
  get_live_rates, rate_of,
}

-- Positive integers are truthy, as in JavaScript.
module _ (num : Numbers) (positive : (n : ℕ) → 0 < n → num.is_truthy (num.of_nat n) ≡ true) where
  -- No rate is 0 or NaN.
  abbrev pub AllTruthy : Rates num → Type 0
  AllTruthy r = (a : AssetCode) → num.is_truthy (rate_of num r a) ≡ true

  abbrev pub CacheOk : RateCache num → Type 0
  CacheOk cache = (r : Rates num) → cache.rates ≡ some r → AllTruthy r

  price_or-truthy :
      (p : Option num.Number) (n : ℕ) → 0 < n → num.is_truthy (price_or num p n) ≡ true
  price_or-truthy none n h = positive n h
  price_or-truthy (some p) n h = ground (arith, positive n h)

  fetched-AllTruthy : (p : Prices num) → AllTruthy (fetched_rates num p)
  fetched-AllTruthy p AssetCode.xlm = price_or-truthy p.stellar 9 (omega arith)
  fetched-AllTruthy p AssetCode.usdc = price_or-truthy p.usd_coin 83 (omega arith)
  fetched-AllTruthy p AssetCode.btc = price_or-truthy p.bitcoin 9_000_000 (omega arith)
  fetched-AllTruthy p AssetCode.eth = price_or-truthy p.ethereum 300_000 (omega arith)
  fetched-AllTruthy p AssetCode.sol = price_or-truthy p.solana 14_000 (omega arith)
  fetched-AllTruthy p AssetCode.inr = positive 1 (omega arith)

  static-AllTruthy : AllTruthy (static_rates num)
  static-AllTruthy AssetCode.xlm = positive 9 (omega arith)
  static-AllTruthy AssetCode.usdc = positive 83 (omega arith)
  static-AllTruthy AssetCode.btc = positive 9_000_000 (omega arith)
  static-AllTruthy AssetCode.eth = positive 300_000 (omega arith)
  static-AllTruthy AssetCode.sol = positive 14_000 (omega arith)
  static-AllTruthy AssetCode.inr = positive 1 (omega arith)

  -- What one call of `getLiveRates` gives back, from a cache.
  pub record Served (now : ℕ) (fetched : Result (Prices num)) (cache : RateCache num)
      (out : Rates num × RateCache num) : Type 0 where
    pub truthy : AllTruthy out.0
    pub kept : CacheOk out.1
    pub cached : out.1.rates ≡ some out.0
    pub source :
        (cache.rates ≡ some out.0)
        ⊎ ((p : Prices num) × (fetched ≡ ok p) × (out.0 ≡ fetched_rates num p) × (out.1.time ≡ now))
        ⊎ ((cache.rates ≡ none) × (out.0 ≡ static_rates num))

  cached-ok : (r : Rates num) (t : ℕ) → AllTruthy r → CacheOk (record { rates = some r; time = t })
  cached-ok r t h r' e = let same : r ≡ r' = ground arith in rw (← same) h

  refresh_rates-Served :
      (now : ℕ) (fetched : Result (Prices num)) (cache : RateCache num)
      → CacheOk cache
      → Served now fetched cache (refresh_rates num now fetched cache)
  refresh_rates-Served now (ok p) cache h = record {
    truthy = fetched-AllTruthy p;
    kept = cached-ok (fetched_rates num p) now (fetched-AllTruthy p);
    cached = refl;
    source = inr (inl (p, refl, refl, refl));
  }
  refresh_rates-Served now (err e) cache h = elim (Option-cases cache.rates) [
    | inl empty ↦
        let out : refresh_rates num now (err e) cache
            ≡ (static_rates num, record { rates = some (static_rates num); time = cache.time }) =
          ground arith in
        rw out (record {
          truthy = static-AllTruthy;
          kept = cached-ok (static_rates num) cache.time static-AllTruthy;
          cached = refl;
          source = inr (inr (empty, refl));
        })
    | inr (old, full) ↦
        let out : refresh_rates num now (err e) cache ≡ (old, cache) = ground arith in
        rw out (record { truthy = h old full; kept = h; cached = full; source = inl full })
  ]

  -- Whatever CoinGecko answers, no rate is 0 or NaN, so no quote divides by zero, and what is
  -- cached is what is returned. The rates are the cached ones, or those just fetched, stamped with
  -- the time of the call, or, only while nothing was ever fetched, the static estimates.
  pub get_live_rates-Served :
      (now : ℕ) (fetched : Result (Prices num)) (cache : RateCache num)
      → CacheOk cache
      → Served now fetched cache (get_live_rates num now fetched cache)
  unfolding get_live_rates
  get_live_rates-Served now fetched cache h = elim (Option-cases cache.rates) [
    | inl empty ↦
        let out : get_live_rates num now fetched cache ≡ refresh_rates num now fetched cache =
          ground arith in
        rw out (refresh_rates-Served now fetched cache h)
    | inr (old, full) ↦ elim (Bool-cases (ltb now (cache.time + 60_000))) [
      | inl fresh ↦
          let out : get_live_rates num now fetched cache ≡ (old, cache) = ground arith in
          rw out (record { truthy = h old full; kept = h; cached = full; source = inl full })
      | inr stale ↦
          let out : get_live_rates num now fetched cache ≡ refresh_rates num now fetched cache =
            ground arith in
          rw out (refresh_rates-Served now fetched cache h)
    ]
  ]
