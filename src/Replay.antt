-- ===== src/Replay.antt =====
-- Rebuilding the books and the state store from a log of events (src/replay/mod.rs).
pub mod Gaps
pub mod Tracks
pub mod Recovery
pub mod Holes
pub mod Verify
use rust_matching_engine.Prelude.{
  ℕ, ◌&&◌, ◌==◌, Option, none, some, List, [], ◌∷◌, if◌then◌else◌, Bool, true, false, not, leb, ltb,
  length, add64, Result, ok, err, ◌>>=◌, ok_or, unwrap_or,
}
use rust_matching_engine.HashMap.{HashMap, bytes_key}
use rust_matching_engine.HashMap
use rust_matching_engine.Domain.Market.{Str}
use rust_matching_engine.Domain.Order.{
  Order, OrderId, OrderStatus, Fill, filled, partially_filled, cancelled, cancelled_stp, is_closed,
}
use rust_matching_engine.Events.{
  Event, SequencedEvent, CancelReason, order_accepted, order_cancelled, self_trade_prevention,
}
use rust_matching_engine.Events
use rust_matching_engine.StateStore.{StateStore, apply_fill, cancel_order}
use rust_matching_engine.StateStore
use rust_matching_engine.Engine.Orderbook.{OrderBook}
use rust_matching_engine.Engine.Orderbook

pub record ReplayResult : Type 0 where
  pub books : HashMap Str OrderBook
  pub state : StateStore
  pub last_seq_id : ℕ
  pub event_count : ℕ

pub data ReplayError : Type 0 where
  seq_id_gap : (expected got : ℕ) → ReplayError
  unknown_order : OrderId → ReplayError

-- The working set of the loop.
pub record Working : Type 0 where
  pub orders : HashMap OrderId Order
  pub state : StateStore
  pub last_seq_id : ℕ

unfoldable pub start : Working
start = record { orders = []; state = StateStore.new; last_seq_id = 0 }

-- One side of a fill.
unfoldable pub fill_order : ℕ → ℕ → Order → Order
fill_order seq_id size_lots o =
    let total = add64 o.filled_size_lots size_lots in
    record o {
      filled_size_lots = total;
      last_update_sequence = seq_id;
      status = if leb o.orig_size_lots total then filled else partially_filled;
    }

unfoldable pub fill_side :
    ℕ → ℕ → OrderId → HashMap OrderId Order → Result ReplayError (HashMap OrderId Order)
unfolding fill_order
fill_side seq_id size_lots id orders = do
  o ← ok_or (HashMap.get orders id) (unknown_order id)
  ok (HashMap.insert orders id (fill_order seq_id size_lots o))

unfoldable pub cancelled_status : CancelReason → OrderStatus
cancelled_status self_trade_prevention = cancelled_stp
cancelled_status _ = cancelled

-- The nonce of an accepted order, when it is above the stored one.
unfoldable pub raise_nonce : StateStore → Order → StateStore
raise_nonce s o =
    if ltb (unwrap_or (HashMap.get s.nonces o.trader_id) 0) o.nonce
    then record s { nonces = HashMap.insert s.nonces o.trader_id o.nonce }
    else s

-- The `match` of the loop.
unfoldable pub apply_event : ℕ → Event → Working → Result ReplayError Working
unfolding fill_side cancelled_status raise_nonce
apply_event seq_id (order_accepted o) w =
    ok (record w { state = raise_nonce w.state o; orders = HashMap.insert w.orders o.order_id o })
apply_event seq_id (Events.Event.fill f) w = do
  taken ← fill_side seq_id f.size_lots f.taker_order_id w.orders
  orders ← fill_side seq_id f.size_lots f.maker_order_id taken
  ok (record w {
    orders = orders;
    state = apply_fill w.state f.taker_order_hash f.maker_order_hash f.size_lots;
  })
apply_event seq_id (order_cancelled id hash reason) w = do
  o ← ok_or (HashMap.get w.orders id) (unknown_order id)
  ok (record w {
    orders =
        HashMap.insert w.orders id
          (record o { status = cancelled_status reason; last_update_sequence = seq_id });
    state = cancel_order w.state hash;
  })
apply_event seq_id _ w = ok w

-- One turn of the loop.
unfoldable pub replay_event : SequencedEvent → Working → Result ReplayError Working
unfolding apply_event
replay_event se w =
    if not (w.last_seq_id == 0) && not (se.seq_id == add64 w.last_seq_id 1)
    then err (seq_id_gap (add64 w.last_seq_id 1) se.seq_id)
    else apply_event se.seq_id se.event (record w { last_seq_id = se.seq_id })

unfoldable pub replay_events : List SequencedEvent → Working → Result ReplayError Working
unfolding replay_event
replay_events [] w = ok w
replay_events (se ∷ log) w = replay_event se w >>= replay_events log

-- `orders.values().filter(|o| !o.is_closed())`
unfoldable pub open_values : HashMap OrderId Order → List Order
open_values [] = []
open_values ((_, o) ∷ orders) =
    let rest = open_values orders in if is_closed o then rest else o ∷ rest

-- `sort_by_key(|o| o.created_sequence)`, which is stable.
unfoldable pub insert_sorted : Order → List Order → List Order
insert_sorted o [] = o ∷ []
insert_sorted o (p ∷ q) =
    let rest = insert_sorted o q in
    if leb o.created_sequence p.created_sequence then o ∷ p ∷ q else p ∷ rest

unfoldable pub sort_by_created : List Order → List Order
unfolding insert_sorted
sort_by_created [] = []
sort_by_created (o ∷ q) = insert_sorted o (sort_by_created q)

-- `books.entry(order.market_id.0.clone()).or_default().insert(order.clone())`
unfoldable pub rest_order : HashMap Str OrderBook → Order → HashMap Str OrderBook
unfolding Orderbook.new
rest_order books o =
    HashMap.insert books o.market_id
      (Orderbook.insert (unwrap_or (HashMap.get books o.market_id) Orderbook.new) o)

unfoldable pub build_books : List Order → HashMap Str OrderBook → HashMap Str OrderBook
unfolding rest_order
build_books [] books = books
build_books (o ∷ orders) books = build_books orders (rest_order books o)

unfoldable pub replay : List SequencedEvent → Result ReplayError ReplayResult
unfolding start replay_events open_values sort_by_created build_books
replay events = do
  w ← replay_events events start
  ok (record {
    books = build_books (sort_by_created (open_values w.orders)) [];
    state = w.state;
    last_seq_id = w.last_seq_id;
    event_count = length events;
  })
