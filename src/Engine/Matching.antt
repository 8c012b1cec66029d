-- ===== src/Engine/Matching.antt =====
-- Price-time priority matching (src/engine/matching.rs).
pub mod Fills
pub mod Round
pub mod Level
pub mod Prices
pub mod Walk
pub mod Outcome
use rust_matching_engine.Prelude.{
  ℕ, Option, none, some, List, [], ◌∷◌, ◌++◌, add64, if◌then◌else◌, Bool, true, false, ite, leb,
  ◌==◌, min, Flow, stop, go, for_each,
}
use rust_matching_engine.HashMap.{bytes_eq}
use rust_matching_engine.Domain.Market.{Str, MarketId}
use rust_matching_engine.Domain.Order.{
  Order, OrderId, OrderHash, Fill, Side, buy, sell, is_closed, remaining_size_lots, filled,
  partially_filled, cancelled_stp,
}
use rust_matching_engine.Engine.Orderbook.{
  OrderBook, get, set_order, remove_from_queue, orders_at_price, ask_prices_asc, bid_prices_desc,
}

-- What the loops mutate: `book`, `taker` and `fills`.
pub record MatchState : Type 0 where
  pub book : OrderBook
  pub taker : Order
  pub fills : List Fill

pub record MakerSnapshot : Type 0 where
  pub order_id : OrderId
  pub order_hash : OrderHash
  pub trader_id : Str
  pub market_id : MarketId
  pub remaining : ℕ

unfoldable pub snapshot : Order → MakerSnapshot
snapshot maker = record {
  order_id = maker.order_id;
  order_hash = maker.order_hash;
  trader_id = maker.trader_id;
  market_id = maker.market_id;
  remaining = remaining_size_lots maker;
}

-- Steps 5 and 6: an order takes a fill.
unfoldable pub take_fill : Order → ℕ → ℕ → Order
take_fill o seq_id qty =
    let o' = record o {
      filled_size_lots = add64 o.filled_size_lots qty;
      last_update_sequence = seq_id;
    } in
    record o' { status = if remaining_size_lots o' == 0 then filled else partially_filled }

-- Step 4.
unfoldable pub make_fill : Order → MakerSnapshot → ℕ → ℕ → ℕ → ℕ → Fill
make_fill taker m price qty seq_id now_ms = record {
  market_id = m.market_id;
  taker_order_id = taker.order_id;
  taker_order_hash = taker.order_hash;
  taker_trader_id = taker.trader_id;
  maker_order_id = m.order_id;
  maker_order_hash = m.order_hash;
  maker_trader_id = m.trader_id;
  price_ticks = price;
  size_lots = qty;
  sequence_id = seq_id;
  executed_at_ms = now_ms;
}

-- Step 7: a maker that is closed leaves its queue.
unfoldable pub settle_maker : OrderBook → OrderId → Order → OrderBook
settle_maker book maker_id maker =
    let book' = set_order book maker_id maker in
    if is_closed maker then remove_from_queue book' maker_id else book'

-- Steps 3 to 7 for an open maker of another trader.
unfoldable pub trade : ℕ → ℕ → ℕ → OrderId → Order → MatchState → MatchState
unfolding snapshot take_fill make_fill settle_maker
trade price seq_id now_ms maker_id maker s =
    let m = snapshot maker in
    let fill_qty = min (remaining_size_lots s.taker) m.remaining in
    record {
      book = settle_maker s.book maker_id (take_fill maker seq_id fill_qty);
      taker = take_fill s.taker seq_id fill_qty;
      fills = s.fills ++ make_fill s.taker m price fill_qty seq_id now_ms ∷ [];
    }

-- Step 2: the taker is cancelled before it meets its own trader's order.
unfoldable pub meet : ℕ → ℕ → ℕ → OrderId → Order → MatchState → Flow MatchState
unfolding trade
meet price seq_id now_ms maker_id maker s =
    ite (bytes_eq maker.trader_id s.taker.trader_id)
      (stop (record s {
        taker = record s.taker { status = cancelled_stp; last_update_sequence = seq_id };
      }))
      (go (trade price seq_id now_ms maker_id maker s))

-- One round of the loop over the makers of a level.
unfoldable pub maker_round : ℕ → ℕ → ℕ → OrderId → MatchState → Flow MatchState
unfolding meet
maker_round price seq_id now_ms maker_id s =
    if remaining_size_lots s.taker == 0 then stop s else elim (get s.book maker_id) [
      | none ↦ go s
      | some maker ↦ if is_closed maker then go s else meet price seq_id now_ms maker_id maker s
    ]

unfoldable pub match_at_price_level : ℕ → Side → ℕ → ℕ → MatchState → MatchState
unfolding maker_round
match_at_price_level price maker_side seq_id now_ms s =
    for_each (maker_round price seq_id now_ms) (orders_at_price s.book price maker_side) s

-- One round of the loop over the prices.
unfoldable pub price_round : Side → ℕ → ℕ → ℕ → MatchState → Flow MatchState
unfolding match_at_price_level
price_round maker_side seq_id now_ms price s =
    if remaining_size_lots s.taker == 0
    then stop s
    else if is_closed s.taker
    then stop s
    else go (match_at_price_level price maker_side seq_id now_ms s)

-- `take_while`
unfoldable pub take_while : (ℕ → Bool) → List ℕ → List ℕ
take_while test [] = []
take_while test (p ∷ ps) = let rest = take_while test ps in if test p then p ∷ rest else []

unfoldable pub match_buy : ℕ → ℕ → MatchState → MatchState
unfolding price_round take_while
match_buy seq_id now_ms s =
    for_each (price_round sell seq_id now_ms)
      (take_while (λ p. leb p s.taker.price_ticks) (ask_prices_asc s.book)) s

unfoldable pub match_sell : ℕ → ℕ → MatchState → MatchState
unfolding price_round take_while
match_sell seq_id now_ms s =
    for_each (price_round buy seq_id now_ms)
      (take_while (λ p. leb s.taker.price_ticks p) (bid_prices_desc s.book)) s

unfoldable pub match_side : Side → ℕ → ℕ → MatchState → MatchState
unfolding match_buy match_sell
match_side buy seq_id now_ms s = match_buy seq_id now_ms s
match_side sell seq_id now_ms s = match_sell seq_id now_ms s

-- The book, the taker and the fills when matching ends.
unfoldable pub match_order : OrderBook → Order → ℕ → ℕ → MatchState
unfolding match_side
match_order book taker seq_id now_ms =
    match_side taker.side seq_id now_ms (record { book = book; taker = taker; fills = [] })
