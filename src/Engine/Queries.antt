-- ===== src/Engine/Queries.antt =====
-- The queries of the engine on books and fills (src/engine/mod.rs).
use rust_matching_engine.Prelude.{
  ℕ, Option, none, some, List, [], ◌∷◌, ◌&&◌, if◌then◌else◌, ite, ltb, ◌==◌, take, map,
}
use rust_matching_engine.HashMap.{HashMap, bytes_eq, bytes_key, pair_key}
use rust_matching_engine.HashMap
use rust_matching_engine.Domain.Market.{Str, MarketConfig}
use rust_matching_engine.Domain.Order.{Fill, Order, OrderId}
use rust_matching_engine.Events.{
  Event, SequencedEvent, CancelReason, trader_request, self_trade_prevention, order_accepted,
  order_cancelled,
}
use rust_matching_engine.Events
use rust_matching_engine.Engine.Orderbook.{OrderBook, PriceLevel}
use rust_matching_engine.Engine.Orderbook
use rust_matching_engine.Engine.{Engine, find_order}
use rust_matching_engine.StateStore.Checksum.{sort_by_key}

unfoldable pub get_order : Engine → OrderId → Option Order
unfolding find_order
get_order e order_id = find_order e order_id

-- `markets.values()`, each with the id that it is sorted by.
unfoldable pub by_id : HashMap Str MarketConfig → HashMap Str MarketConfig
by_id [] = []
by_id ((_, m) ∷ markets) = (m.id, m) ∷ by_id markets

unfoldable pub list_markets : Engine → List MarketConfig
unfolding by_id sort_by_key
list_markets e = map (λ (p : Str × MarketConfig). p.1) (sort_by_key (by_id e.markets))

unfoldable pub best_prices : Engine → Str → Option (Option ℕ × Option ℕ)
best_prices e market_id = elim (HashMap.get e.books market_id) [
  | none ↦ none
  | some book ↦ some (Orderbook.best_bid book, Orderbook.best_ask book)
]

unfoldable pub l2_snapshot : Engine → Str → ℕ → Option (List PriceLevel × List PriceLevel)
l2_snapshot e market_id depth = elim (HashMap.get e.books market_id) [
  | none ↦ none
  | some book ↦ some (Orderbook.l2_bids book depth, Orderbook.l2_asks book depth)
]

-- The `filter_map` of `get_fills`.
unfoldable pub fills_from : Str → ℕ → List SequencedEvent → List Fill
fills_from market_id from_seq [] = []
fills_from market_id from_seq (se ∷ log) =
    let rest = fills_from market_id from_seq log in
    if ltb se.seq_id from_seq && ltb 0 from_seq then rest else elim se.event [
      | Events.Event.fill f ↦ ite (bytes_eq f.market_id market_id) (f ∷ rest) rest
      | _ ↦ rest
    ]

unfoldable pub get_fills : Engine → Str → ℕ → ℕ → List Fill
unfolding fills_from
get_fills e market_id from_seq limit =
    let all = fills_from market_id from_seq e.sequencer.log in
    if limit == 0 then all else take limit all
