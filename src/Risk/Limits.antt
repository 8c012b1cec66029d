-- ===== src/Risk/Limits.antt =====
-- What an order that passes the risk checks satisfies (src/risk/mod.rs).
use rust_matching_engine.Prelude.{
  ℕ, ◌+◌, ◌*◌, ◌/◌, ◌≤◌, ◌<◌, ◌≡◌, ◌↔◌, refl, some, ltb, ok, Result-cases, Option-cases, Bool-cases,
  arith, inl, inr, u64_mod,
}
use rust_matching_engine.HashMap.{HashMap, bytes_eq, bytes_key}
use rust_matching_engine.HashMap
use rust_matching_engine.Domain.Market.{Str}
use rust_matching_engine.Risk.{
  RiskChecker, MarketRiskConfig, count, check_rate_limit, check_size, check_band, check_price_band,
  checks, check,
}

-- The price is within the band around the reference price, where there are both.
unfoldable pub InBand : RiskChecker → Str → ℕ → Type 0
InBand r market price =
    (cfg : MarketRiskConfig) (reference : ℕ)
    → HashMap.get r.config.markets market ≡ some cfg
    → 0 < cfg.price_band_bps
    → HashMap.get r.reference_prices market ≡ some reference
    → (reference ≤ price + reference * cfg.price_band_bps / 10000)
      × (price ≤ reference + reference * cfg.price_band_bps / 10000)

-- The three limits, without the machine's arithmetic.
pub record IsAdmissible (r : RiskChecker) (now : ℕ) (trader market : Str) (price size : ℕ)
    : Type 0 where
  pub under_rate : count r trader now < r.config.max_orders_per_window
  pub under_size :
      (cfg : MarketRiskConfig)
      → HashMap.get r.config.markets market ≡ some cfg
      → size ≤ cfg.max_order_size_lots
  pub in_band : InBand r market price

pub check_rate_limit_iff :
    (r : RiskChecker) (trader : Str) (now : ℕ)
    → (check_rate_limit r trader now ≡ ok tt)
      ↔ (count r trader now < r.config.max_orders_per_window)
unfolding check_rate_limit
check_rate_limit_iff r trader now = ground arith

check_price_band_iff :
    (market : Str) (price reference bps : ℕ)
    → price < u64_mod
    → reference * bps < u64_mod
    → (check_price_band market price reference bps ≡ ok tt) ↔ (
        (reference ≤ price + reference * bps / 10000)
        × (price ≤ reference + reference * bps / 10000))
unfolding check_price_band
check_price_band_iff market price reference bps small fits = ground arith

check_size_iff :
    (r : RiskChecker) (market : Str) (size : ℕ)
    → (check_size r market size ≡ ok tt) ↔ (
        (cfg : MarketRiskConfig)
        → HashMap.get r.config.markets market ≡ some cfg
        → size ≤ cfg.max_order_size_lots)
unfolding check_size
check_size_iff r market size = elim (Option-cases (HashMap.get r.config.markets market)) [
  | inl missing ↦ rw (missing, check_size) ((λ _ cfg h. cc), λ _. refl)
  | inr (c, found) ↦
      rw (found, check_size)
        ((λ passed cfg same. ground arith), λ bound. let b = bound c refl in ground arith)
]

-- No product of a reference price and a band of the market reaches 2 ^ 64.
unfoldable pub IsSmall : RiskChecker → Str → ℕ → Type 0
IsSmall r market price =
    (price < u64_mod)
    × ((cfg : MarketRiskConfig) (reference : ℕ)
        → HashMap.get r.config.markets market ≡ some cfg
        → HashMap.get r.reference_prices market ≡ some reference
        → reference * cfg.price_band_bps < u64_mod)

check_band_iff :
    (r : RiskChecker) (market : Str) (price : ℕ)
    → IsSmall r market price
    → (check_band r market price ≡ ok tt) ↔ InBand r market price
unfolding IsSmall
check_band_iff r market price (small, fits) =
    elim (Option-cases (HashMap.get r.config.markets market)) [
      | inl missing ↦
          unfold InBand check_band in
          rw (missing, check_band) ((λ _ cfg reference h. cc), λ _. refl)
      | inr (c, found) ↦ elim (Bool-cases (ltb 0 c.price_band_bps)) [
        | inr off ↦
            unfold InBand check_band in
            rw (found, off, check_band) ((λ _ cfg reference same positive. ground arith), λ _. refl)
        | inl on ↦ elim (Option-cases (HashMap.get r.reference_prices market)) [
          | inl unpriced ↦
              unfold InBand check_band in
              rw (found, on, unpriced, check_band)
                ((λ _ cfg reference same positive h. cc), λ _. refl)
          | inr (p, priced) ↦
              let band =
                check_price_band_iff market price p c.price_band_bps small
                  (fits c p found priced) in
              unfold InBand check_band in
              rw (found, on, priced, check_band)
                (
                  (λ passed cfg reference same positive h. ground (arith, band)),
                  λ bound. ground (arith, band, bound c p refl _ refl),
                )
        ]
      ]
    ]

pub checks_iff :
    (r : RiskChecker) (now : ℕ) (trader market : Str) (price size : ℕ)
    → (checks r now trader market price size ≡ ok tt) ↔ (
        (check_rate_limit r trader now ≡ ok tt)
        × (check_size r market size ≡ ok tt)
        × (check_band r market price ≡ ok tt))
unfolding checks
checks_iff r now trader market price size = ground arith

-- While the prices and bands are small enough for `u64`, an order passes the checks exactly when the
-- trader's window has room, the size is at most the market's and the price is in the band.
pub check_iff :
    (r : RiskChecker) (now : ℕ) (trader market : Str) (price size : ℕ)
    → IsSmall r market price
    → ((check r now trader market price size).0 ≡ ok tt)
      ↔ IsAdmissible r now trader market price size
unfolding check
check_iff r now trader market price size small =
    let both = checks_iff r now trader market price size in
    let rate = check_rate_limit_iff r trader now in
    let lots = check_size_iff r market size in
    let band = check_band_iff r market price small in
    elim (Result-cases (checks r now trader market price size)) [
      | inl (u, passed) ↦
          rw (passed, check)
            (
              (λ _.
                  let (a, b, c) = both.0 passed in
                  record { under_rate = rate.0 a; under_size = lots.0 b; in_band = band.0 c }),
              λ _. refl,
            )
      | inr (e, failed) ↦
          rw (failed, check)
            (
              (λ h. cc),
              λ a. cc (failed, both.1 (rate.1 a.under_rate, lots.1 a.under_size, band.1 a.in_band)),
            )
    ]
