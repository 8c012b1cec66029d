-- ===== src/Domain/Market/Rules.antt =====
-- What the price and size rules of src/domain/market.rs accept.
use rust_matching_engine.Prelude.{ℕ, ◌*◌, ◌<◌, ◌≡◌, ok, true, arith, ◌/◌, ◌↔◌}
use native.Mathlib.Nat.{div-add-mod, mul-mod_right}
use rust_matching_engine.Domain.Market.{MarketConfig, is_multiple_of, validate_price, validate_size}

multiple_iff : (a b : ℕ) → (is_multiple_of a b ≡ true) ↔ ((k : ℕ) × (a ≡ b * k))
unfolding is_multiple_of
multiple_iff a b =
    (λ h. (a / b, ground (arith, div-add-mod a b)), λ h. ground (arith, mul-mod_right b h.0))

-- A price passes exactly when it is a positive multiple of the tick size.
pub validate_price_iff :
    (m : MarketConfig) (price : ℕ)
    → (validate_price m price ≡ ok tt) ↔ ((0 < price) × ((k : ℕ) × (price ≡ m.tick_size * k)))
validate_price_iff m price = (
  λ h. (
    unfold validate_price in ground arith,
    (multiple_iff price m.tick_size).0 (unfold validate_price in ground arith),
  ),
  λ h. let e = (multiple_iff price m.tick_size).1 h.1 in unfold validate_price in ground arith,
)

-- A size passes exactly when it is a positive multiple of the lot size.
pub validate_size_iff :
    (m : MarketConfig) (size : ℕ)
    → (validate_size m size ≡ ok tt) ↔ ((0 < size) × ((k : ℕ) × (size ≡ m.lot_size * k)))
validate_size_iff m size = (
  λ h. (
    unfold validate_size in ground arith,
    (multiple_iff size m.lot_size).0 (unfold validate_size in ground arith),
  ),
  λ h. let e = (multiple_iff size m.lot_size).1 h.1 in unfold validate_size in ground arith,
)
