-- ===== src/Engine/Orderbook.antt =====
-- The order book of one market: price levels of FIFO queues, and every order
-- (src/engine/orderbook.rs).
pub mod Queue
pub mod Levels
pub mod Invariant
pub mod Cancel
use mathlib.Core.List.{reverse}
use rust_matching_engine.Prelude.{
  ℕ, Option, none, some, List, [], ◌∷◌, ◌++◌, add64, if◌then◌else◌, Bool, true, false, unwrap_or,
  ite, length, take, map,
}
use rust_matching_engine.HashMap.{HashMap, bytes_eq, bytes_key}
use rust_matching_engine.HashMap
use rust_matching_engine.BTreeMap.{BTreeMap}
use rust_matching_engine.BTreeMap
use rust_matching_engine.Domain.Order.{
  Order, OrderId, OrderStatus, cancelled, Side, buy, sell, is_closed, remaining_size_lots,
}

pub record OrderBook : Type 0 where
  pub bids : BTreeMap (List OrderId)
  pub asks : BTreeMap (List OrderId)
  pub orders : HashMap OrderId Order

pub record PriceLevel : Type 0 where
  pub price : ℕ
  pub total_qty : ℕ
  pub order_count : ℕ

unfoldable pub new : OrderBook
new = record { bids = []; asks = []; orders = [] }

-- The price levels of one side, and a book with these replaced.
unfoldable pub levels : OrderBook → Side → BTreeMap (List OrderId)
levels b buy = b.bids
levels b sell = b.asks

unfoldable pub set_levels : OrderBook → Side → BTreeMap (List OrderId) → OrderBook
set_levels b buy m = record b { bids = m }
set_levels b sell m = record b { asks = m }

-- `entry(price).or_default().push_back(id)`
unfoldable pub push_back : BTreeMap (List OrderId) → ℕ → OrderId → BTreeMap (List OrderId)
push_back m price id = BTreeMap.insert m price (unwrap_or (BTreeMap.get m price) [] ++ id ∷ [])

unfoldable pub insert : OrderBook → Order → OrderBook
unfolding levels set_levels push_back
insert b order =
    let b' = record b { orders = HashMap.insert b.orders order.order_id order } in
    set_levels b' order.side (push_back (levels b' order.side) order.price_ticks order.order_id)

abbrev pub get : OrderBook → OrderId → Option Order
get b id = HashMap.get b.orders id

-- A write through `get_mut`.
abbrev pub set_order : OrderBook → OrderId → Order → OrderBook
set_order b id order = record b { orders = HashMap.insert b.orders id order }

-- `queue.retain(|oid| oid != id)`
unfoldable pub retain_ne : OrderId → List OrderId → List OrderId
unfolding bytes_eq
retain_ne id [] = []
retain_ne id (j ∷ q) = let rest = retain_ne id q in ite (bytes_eq j id) rest (j ∷ rest)

-- The level's queue after the `retain`: an empty queue takes its level away.
unfoldable pub put_queue : BTreeMap (List OrderId) → ℕ → List OrderId → BTreeMap (List OrderId)
put_queue m price [] = BTreeMap.remove m price
put_queue m price (j ∷ q) = BTreeMap.insert m price (j ∷ q)

unfoldable pub drop_from_level : BTreeMap (List OrderId) → ℕ → OrderId → BTreeMap (List OrderId)
unfolding retain_ne put_queue
drop_from_level m price id = elim (BTreeMap.get m price) [
  | none ↦ m
  | some q ↦ put_queue m price (retain_ne id q)
]

-- `remove_from_queue_inner`
unfoldable pub remove_from_queue : OrderBook → OrderId → OrderBook
unfolding levels set_levels drop_from_level
remove_from_queue b id = elim (get b id) [
  | none ↦ b
  | some o ↦ set_levels b o.side (drop_from_level (levels b o.side) o.price_ticks id)
]

unfoldable pub cancel_with_status : OrderBook → OrderId → OrderStatus → OrderBook × Bool
unfolding remove_from_queue
cancel_with_status b id status = elim (get b id) [
  | none ↦ (b, false)
  | some order ↦
      if is_closed order
      then (b, false)
      else (remove_from_queue (set_order b id (record order { status = status })) id, true)
]

unfoldable pub cancel : OrderBook → OrderId → OrderBook × Bool
unfolding cancel_with_status
cancel b id = cancel_with_status b id cancelled

abbrev last? : List ℕ → Option ℕ
last? [] = none
last? (p ∷ []) = some p
last? (p ∷ q ∷ ps) = last? (q ∷ ps)

abbrev first? : List ℕ → Option ℕ
first? [] = none
first? (p ∷ ps) = some p

unfoldable pub best_bid : OrderBook → Option ℕ
best_bid b = last? (BTreeMap.keys b.bids)

unfoldable pub best_ask : OrderBook → Option ℕ
best_ask b = first? (BTreeMap.keys b.asks)

unfoldable pub ask_prices_asc : OrderBook → List ℕ
ask_prices_asc b = BTreeMap.keys b.asks

unfoldable pub bid_prices_desc : OrderBook → List ℕ
bid_prices_desc b = reverse (BTreeMap.keys b.bids)

unfoldable pub orders_at_price : OrderBook → ℕ → Side → List OrderId
unfolding levels
orders_at_price b price side = unwrap_or (BTreeMap.get (levels b side) price) []

unfoldable pub order_count : OrderBook → ℕ
order_count b = length b.orders

-- `filter_map(get).map(remaining).sum()` over a queue
unfoldable pub queue_qty : HashMap OrderId Order → List OrderId → ℕ
queue_qty orders [] = 0
queue_qty orders (id ∷ q) = elim (HashMap.get orders id) [
  | none ↦ queue_qty orders q
  | some o ↦ add64 (remaining_size_lots o) (queue_qty orders q)
]

unfoldable pub price_level : HashMap OrderId Order → ℕ × List OrderId → PriceLevel
unfolding queue_qty
price_level orders (price, queue) = record {
  price = price;
  total_qty = queue_qty orders queue;
  order_count = length queue;
}

unfoldable pub l2_bids : OrderBook → ℕ → List PriceLevel
unfolding price_level
l2_bids b depth = map (price_level b.orders) (take depth (reverse b.bids))

unfoldable pub l2_asks : OrderBook → ℕ → List PriceLevel
unfolding price_level
l2_asks b depth = map (price_level b.orders) (take depth b.asks)
