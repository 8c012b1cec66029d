-- ===== src/Risk.antt =====
-- The pre-trade risk checks (src/risk/mod.rs).
pub mod Limits
pub mod Rate
use rust_matching_engine.Prelude.{
  ℕ, ◌/◌, ◌&&◌, ◌||◌, Option, none, some, List, [], ◌∷◌, ◌++◌, if◌then◌else◌, Bool, true, false,
  leb, ltb, Result, ok, err, guard, unwrap_or, ◌>>◌, length, saturating_add, saturating_sub,
  saturating_mul,
}
use rust_matching_engine.HashMap.{HashMap, bytes_key}
use rust_matching_engine.HashMap
use rust_matching_engine.Domain.Market.{Str}

pub record MarketRiskConfig : Type 0 where
  pub max_order_size_lots : ℕ
  pub price_band_bps : ℕ

abbrev pub default_market_risk_config : MarketRiskConfig
default_market_risk_config = record { max_order_size_lots = 1000000; price_band_bps = 0 }

pub record RiskConfig : Type 0 where
  pub max_orders_per_window : ℕ
  pub window_ms : ℕ
  pub markets : HashMap Str MarketRiskConfig

abbrev pub default_risk_config : RiskConfig
default_risk_config = record { max_orders_per_window = 100; window_ms = 1000; markets = [] }

pub data RiskError : Type 0 where
  rate_limit_exceeded : (trader_id : Str) → (count : ℕ) → (window_ms : ℕ) → (max : ℕ) → RiskError
  order_too_large : (market_id : Str) → (size_lots : ℕ) → (max_lots : ℕ) → RiskError
  price_outside_band :
      (market_id : Str) → (price_ticks : ℕ) → (reference_ticks : ℕ) → (band_bps : ℕ) → RiskError

-- The state of the checker. Its clock is read once by each call of `check`: the time is an argument.
pub record RiskChecker : Type 0 where
  pub config : RiskConfig
  pub windows : HashMap Str (List ℕ)
  pub reference_prices : HashMap Str ℕ

unfoldable pub with_clock : RiskConfig → RiskChecker
with_clock config = record { config = config; windows = []; reference_prices = [] }

unfoldable pub update_reference_price : RiskChecker → Str → ℕ → RiskChecker
update_reference_price r market_id price_ticks = record r {
  reference_prices = HashMap.insert r.reference_prices market_id price_ticks;
}

-- The timestamps of a window that are not older than its start.
unfoldable pub recent : ℕ → List ℕ → List ℕ
recent window_start [] = []
recent window_start (t ∷ ts) =
    let rest = recent window_start ts in if leb window_start t then t ∷ rest else rest

unfoldable pub timestamps : RiskChecker → Str → List ℕ
timestamps r trader_id = unwrap_or (HashMap.get r.windows trader_id) []

-- The submissions of a trader that its window holds at a time.
unfoldable pub count : RiskChecker → Str → ℕ → ℕ
unfolding recent timestamps
count r trader_id now =
    length (recent (saturating_sub now r.config.window_ms) (timestamps r trader_id))

unfoldable pub check_rate_limit : RiskChecker → Str → ℕ → Result RiskError (Unit {0})
unfolding count
check_rate_limit r trader_id now =
    guard (ltb (count r trader_id now) r.config.max_orders_per_window) (
      rate_limit_exceeded trader_id (count r trader_id now) r.config.window_ms
        r.config.max_orders_per_window)

unfoldable pub record_submission : RiskChecker → Str → ℕ → RiskChecker
unfolding recent timestamps
record_submission r trader_id now = record r {
  windows =
      HashMap.insert r.windows trader_id
        (recent (saturating_sub now r.config.window_ms) (timestamps r trader_id) ++ now ∷ []);
}

unfoldable pub check_size : RiskChecker → Str → ℕ → Result RiskError (Unit {0})
check_size r market_id size_lots = elim (HashMap.get r.config.markets market_id) [
  | none ↦ ok tt
  | some cfg ↦
      guard (leb size_lots cfg.max_order_size_lots)
        (order_too_large market_id size_lots cfg.max_order_size_lots)
]

unfoldable pub check_price_band : Str → ℕ → ℕ → ℕ → Result RiskError (Unit {0})
check_price_band market_id price_ticks reference band_bps =
    let band = saturating_mul reference band_bps / 10000 in
    if ltb price_ticks (saturating_sub reference band)
      || ltb (saturating_add reference band) price_ticks
    then err (price_outside_band market_id price_ticks reference band_bps)
    else ok tt

-- The price band step of `check`.
unfoldable pub check_band : RiskChecker → Str → ℕ → Result RiskError (Unit {0})
unfolding check_price_band
check_band r market_id price_ticks = elim (HashMap.get r.config.markets market_id) [
  | none ↦ ok tt
  | some cfg ↦
      if ltb 0 cfg.price_band_bps
      then elim (HashMap.get r.reference_prices market_id) [
        | none ↦ ok tt
        | some reference ↦ check_price_band market_id price_ticks reference cfg.price_band_bps
      ]
      else ok tt
]

-- The three checks of `check`, in their order.
unfoldable pub checks : RiskChecker → ℕ → Str → Str → ℕ → ℕ → Result RiskError (Unit {0})
unfolding check_rate_limit check_size check_band
checks r now trader_id market_id price_ticks size_lots = do
  check_rate_limit r trader_id now
  check_size r market_id size_lots
  check_band r market_id price_ticks

unfoldable pub check :
    RiskChecker → ℕ → Str → Str → ℕ → ℕ → Result RiskError (Unit {0}) × RiskChecker
unfolding checks record_submission
check r now trader_id market_id price_ticks size_lots =
    elim (checks r now trader_id market_id price_ticks size_lots) [
      | err e ↦ (err e, r)
      | ok _ ↦ (ok tt, record_submission r trader_id now)
    ]
