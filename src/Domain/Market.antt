-- ===== src/Domain/Market.antt =====
-- Markets: identity, configuration and price and size rules (src/domain/market.rs).
pub mod Rules
use rust_matching_engine.Prelude.{
  ℕ, ◌%◌, Bool, true, false, not, ◌==◌, if◌then◌else◌, Result, ok, err, guard, ◌>>=◌, ◌>>◌,
}
use rust_matching_engine.HashMap.{Bytes}

-- A Rust `String`: its UTF-8 bytes.
abbrev pub Str : Type 0
Str = Bytes

abbrev pub MarketId : Type 0
MarketId = Str

pub data MarketStatus : Type 0 where
  active paused settled : MarketStatus

pub record MarketConfig : Type 0 where
  pub id : MarketId
  pub base_asset : Str
  pub quote_asset : Str
  pub tick_size : ℕ
  pub lot_size : ℕ
  pub fee_bps_maker : ℕ
  pub fee_bps_taker : ℕ
  pub status : MarketStatus

pub data MarketError : Type 0 where
  zero_price zero_size : MarketError
  invalid_tick : (price tick_size : ℕ) → MarketError
  invalid_lot : (size lot_size : ℕ) → MarketError
  not_active : MarketError
  not_found : Str → MarketError

unfoldable pub is_active_status : MarketStatus → Bool
is_active_status active = true
is_active_status _ = false

unfoldable pub is_active : MarketConfig → Bool
unfolding is_active_status
is_active m = is_active_status m.status

-- `u64::is_multiple_of`: zero is the one multiple of zero.
unfoldable pub is_multiple_of : ℕ → ℕ → Bool
is_multiple_of a b = if b == 0 then a == 0 else a % b == 0

unfoldable pub validate_price : MarketConfig → ℕ → Result MarketError (Unit {0})
unfolding is_multiple_of
validate_price m price = do
  guard (not (price == 0)) zero_price
  guard (is_multiple_of price m.tick_size) (invalid_tick price m.tick_size)
  ok tt

unfoldable pub validate_size : MarketConfig → ℕ → Result MarketError (Unit {0})
unfolding is_multiple_of
validate_size m size = do
  guard (not (size == 0)) zero_size
  guard (is_multiple_of size m.lot_size) (invalid_lot size m.lot_size)
  ok tt
