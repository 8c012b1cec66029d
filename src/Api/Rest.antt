-- ===== src/Api/Rest.antt =====
-- The requests and the bodies of the HTTP interface (src/api/rest.rs).
use rust_matching_engine.Prelude.{ℕ, Option, List, [], ◌∷◌, Bool, length, add64}
use rust_matching_engine.Domain.Market.{Str, MarketConfig, MarketStatus}
use rust_matching_engine.Domain.Order.{
  SignedOrder, Order, Fill, OrderStatus, Side, Crypto, remaining_size_lots,
}
use rust_matching_engine.Engine.{OrderResult, CancelResult}
use rust_matching_engine.Engine.Orderbook.{PriceLevel}

pub record OrderAcceptedResponse : Type 0 where
  pub order_id : Str
  pub order_hash : Str
  pub status : OrderStatus
  pub seq_id : ℕ
  pub fill_count : ℕ
  pub filled_qty : ℕ
  pub is_duplicate : Bool

-- `fills.iter().map(|f| f.size_lots).sum()`
unfoldable pub filled_qty_of : List Fill → ℕ
filled_qty_of [] = 0
filled_qty_of (f ∷ fs) = add64 f.size_lots (filled_qty_of fs)

abbrev pub accepted_response : Crypto → OrderResult → OrderAcceptedResponse
accepted_response x r = record {
  order_id = r.order_id;
  order_hash = x.hex_encode r.order_hash;
  status = r.final_status;
  seq_id = r.seq_id;
  fill_count = length r.fills;
  filled_qty = filled_qty_of r.fills;
  is_duplicate = r.is_duplicate;
}

pub record CancelledResponse : Type 0 where
  pub order_id : Str
  pub seq_id : Option ℕ
  pub was_already_closed : Bool

abbrev pub cancelled_response : CancelResult → CancelledResponse
cancelled_response r = record {
  order_id = r.order_id;
  seq_id = r.seq_id;
  was_already_closed = r.was_already_closed;
}

pub record OrderStateResponse : Type 0 where
  pub order_id : Str
  pub client_order_id : Str
  pub order_hash : Str
  pub market_id : Str
  pub trader_id : Str
  pub side : Side
  pub price_ticks : ℕ
  pub orig_size_lots : ℕ
  pub filled_size_lots : ℕ
  pub remaining_size_lots : ℕ
  pub status : OrderStatus
  pub created_sequence : ℕ
  pub last_update_sequence : ℕ
  pub accepted_at_ms : ℕ

abbrev pub order_state_response : Crypto → Order → OrderStateResponse
order_state_response x o = record {
  order_id = o.order_id;
  client_order_id = o.client_order_id;
  order_hash = x.hex_encode o.order_hash;
  market_id = o.market_id;
  trader_id = o.trader_id;
  side = o.side;
  price_ticks = o.price_ticks;
  orig_size_lots = o.orig_size_lots;
  filled_size_lots = o.filled_size_lots;
  remaining_size_lots = remaining_size_lots o;
  status = o.status;
  created_sequence = o.created_sequence;
  last_update_sequence = o.last_update_sequence;
  accepted_at_ms = o.accepted_at_ms;
}

pub record BookLevel : Type 0 where
  pub price_ticks : ℕ
  pub total_qty_lots : ℕ
  pub order_count : ℕ

abbrev pub book_level : PriceLevel → BookLevel
book_level l = record {
  price_ticks = l.price;
  total_qty_lots = l.total_qty;
  order_count = l.order_count;
}

pub record BookResponse : Type 0 where
  pub market_id : Str
  pub bids : List BookLevel
  pub asks : List BookLevel

pub record TradeResponse : Type 0 where
  pub sequence_id : ℕ
  pub market_id : Str
  pub price_ticks : ℕ
  pub size_lots : ℕ
  pub taker_order_id : Str
  pub taker_trader_id : Str
  pub maker_order_id : Str
  pub maker_trader_id : Str
  pub executed_at_ms : ℕ

abbrev pub trade_response : Fill → TradeResponse
trade_response f = record {
  sequence_id = f.sequence_id;
  market_id = f.market_id;
  price_ticks = f.price_ticks;
  size_lots = f.size_lots;
  taker_order_id = f.taker_order_id;
  taker_trader_id = f.taker_trader_id;
  maker_order_id = f.maker_order_id;
  maker_trader_id = f.maker_trader_id;
  executed_at_ms = f.executed_at_ms;
}

pub record MarketResponse : Type 0 where
  pub market_id : Str
  pub base_asset : Str
  pub quote_asset : Str
  pub tick_size : ℕ
  pub lot_size : ℕ
  pub fee_bps_maker : ℕ
  pub fee_bps_taker : ℕ
  pub status : MarketStatus

abbrev pub market_response : MarketConfig → MarketResponse
market_response m = record {
  market_id = m.id;
  base_asset = m.base_asset;
  quote_asset = m.quote_asset;
  tick_size = m.tick_size;
  lot_size = m.lot_size;
  fee_bps_maker = m.fee_bps_maker;
  fee_bps_taker = m.fee_bps_taker;
  status = m.status;
}

abbrev pub default_depth : ℕ
default_depth = 20

abbrev pub default_limit : ℕ
default_limit = 100

-- The headers that the handlers read; `none` for one that is missing or not a text.
pub record Headers : Type 0 where
  pub trader_id : Option Str
  pub admin_key : Option Str

-- The requests that the router knows, with what their extractors read.
pub data Request : Type 0 where
  post_order : SignedOrder → Request
  cancel_by_client_id : (trader_id client_order_id : Str) → Request
  delete_order : (order_id : Str) → Headers → Request
  get_order : (order_id : Str) → Request
  get_book : (market_id : Str) → (depth : Option ℕ) → Request
  get_trades : (market_id : Str) → (limit from_seq : Option ℕ) → Request
  list_markets : Request
  admin_pause_market admin_resume_market :
      Headers → (market_id : Str) → (triggered_by : Str) → Request
  admin_cancel_all : Headers → (market_id : Str) → Request

-- The bodies of the answers.
pub data Body : Type 0 where
  accepted : OrderAcceptedResponse → Body
  cancelled : CancelledResponse → Body
  state_of : OrderStateResponse → Body
  book : BookResponse → Body
  trades : List TradeResponse → Body
  markets : List MarketResponse → Body
  status_changed : (market_id : Str) → (seq_id : ℕ) → Body
  cancelled_all : (market_id : Str) → (cancelled_count : ℕ) → Body
