-- ===== src/Events.antt =====
-- The events of the append-only log (src/events/mod.rs).
use rust_matching_engine.Prelude.{ℕ, Option, none, some}
use rust_matching_engine.Domain.Market.{Str, MarketId}
use rust_matching_engine.Domain.Order.{Order, Fill as FillRecord, OrderId, OrderHash}

pub data CancelReason : Type 0 where
  trader_request expired self_trade_prevention admin_force : CancelReason

pub data Event : Type 0 where
  order_accepted : Order → Event
  order_rejected : (client_order_id trader_id reason : Str) → Event
  fill : FillRecord → Event
  order_cancelled : OrderId → OrderHash → CancelReason → Event
  market_paused market_resumed : (market_id triggered_by : Str) → Event

unfoldable pub market_id_of : Event → Option MarketId
market_id_of (order_accepted o) = some o.market_id
market_id_of (order_rejected c t r) = none
market_id_of (fill f) = some f.market_id
market_id_of (order_cancelled i h r) = none
market_id_of (market_paused m t) = some m
market_id_of (market_resumed m t) = some m

pub record SequencedEvent : Type 0 where
  pub seq_id : ℕ
  pub timestamp_ms : ℕ
  pub event : Event
