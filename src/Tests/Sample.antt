-- ===== src/Tests/Sample.antt =====
-- The data of the tests: two traders, a market, orders and the engine that has taken them.
use rust_matching_engine.Prelude.{
  ℕ, ◌+◌, ◌≡◌, refl, [], ◌∷◌, Option, none, some, true, false, Result, ok, err, unwrap_or, add64,
  sub64, for_each, ℕ_discrete,
}
use rust_matching_engine.HashMap.{HashMap, bytes_eq, pair_eq, bytes_key, pair_key}
use rust_matching_engine.HashMap
use rust_matching_engine.BTreeMap
use rust_matching_engine.Domain.Market.{
  Str, MarketConfig, active, is_active, is_active_status, is_multiple_of, validate_price,
  validate_size,
}
use rust_matching_engine.Domain.Order.{
  Order, SignedOrder, Crypto, Side, buy, sell, gtc, open_, zero_size, validate_fields,
  verify_signature, remaining_size_lots, is_closed,
}
use rust_matching_engine.Sequencer.{
  Sequencer, new, peek_next_seq_id, append_event, idempotency_check, register_accepted,
}
use rust_matching_engine.Sequencer
use rust_matching_engine.StateStore.{bump, check_and_update_nonce, apply_fill, cancel_order}
use rust_matching_engine.StateStore
use rust_matching_engine.Engine.Orderbook.{
  OrderBook, levels, set_levels, push_back, retain_ne, put_queue, drop_from_level,
  remove_from_queue, cancel_with_status, ask_prices_asc, bid_prices_desc, orders_at_price,
}
use rust_matching_engine.Engine.Orderbook
use rust_matching_engine.Engine.Matching.{match_order}
use rust_matching_engine.Engine.Residual.{insert_residual}
use rust_matching_engine.Engine.{
  Engine, EngineError, order, OrderResult, Inputs, with_clock, add_market, validate, new_order,
  admit, settle, accept, process_order,
}

abbrev pub alice : Str
alice = 1 ∷ []

abbrev pub bob : Str
bob = 2 ∷ []

abbrev pub market : Str
market = 7 ∷ []

abbrev pub config : MarketConfig
config = record {
  id = market;
  base_asset = 8 ∷ [];
  quote_asset = 9 ∷ [];
  tick_size = 5;
  lot_size = 2;
  fee_bps_maker = 10;
  fee_bps_taker = 20;
  status = active;
}

-- A signature scheme that accepts every signature.
abbrev pub crypto : Crypto
crypto = record {
  sha256 = λ b. b;
  key_is_valid = λ _. true;
  verify = λ _ _ _. true;
  hex_encode = λ b. b;
}

abbrev pub signed : Str → Side → ℕ → ℕ → ℕ → SignedOrder
signed trader side price size nonce = record {
  schema_version = 1;
  client_order_id = 3 ∷ [];
  market_id = market;
  trader_id = trader;
  side = side;
  price_ticks = price;
  size_lots = size;
  time_in_force = gtc;
  nonce = nonce;
  expiry_ts_ms = 0;
  created_at_ms = 0;
  salt = 0;
  trader_pubkey = trader;
  signature = [];
}

abbrev pub inputs : ℕ → Inputs
inputs n = record { now_ms = 1000 + n; new_order_id = n ∷ []; stamp = λ k. 1000 + k }

-- The engine with its market.
abbrev pub engine : Engine
engine = add_market with_clock config

-- The ask of 10 lots at 100.
abbrev pub ask : SignedOrder
ask = signed alice sell 100 10 1

-- The bid of 4 lots at 105, which the ask fills.
abbrev pub bid : SignedOrder
bid = signed bob buy 105 4 1

abbrev pub answer_of : Option (Result EngineError OrderResult × Engine) → OrderResult
answer_of (some (ok r, _)) = r
answer_of _ = record {
  order_id = [];
  order_hash = [];
  seq_id = 0;
  fills = [];
  final_status = open_;
  is_duplicate = false;
}

abbrev pub engine_of : {R : Type 0} → Option (R × Engine) → Engine
engine_of (some (_, e)) = e
engine_of none = engine

abbrev pub ask_call : Option (Result EngineError OrderResult × Engine)
ask_call = process_order crypto (inputs 1) ask engine

abbrev pub after_ask : Engine
after_ask = engine_of ask_call

abbrev pub bid_call : Option (Result EngineError OrderResult × Engine)
bid_call = process_order crypto (inputs 2) bid after_ask

abbrev pub after_bid : Engine
after_bid = engine_of bid_call

-- Both calls are accepted.
pub ask_accepted : ask_call ≡ some (ok (answer_of ask_call), after_ask)
unfolding with_clock add_market Sequencer.new StateStore.new Orderbook.new HashMap.get
    HashMap.insert bytes_eq pair_eq ℕ_discrete process_order validate validate_fields
    verify_signature is_active is_active_status validate_price validate_size is_multiple_of
    idempotency_check check_and_update_nonce accept admit settle mathlib.Core.Bool.decide
ask_accepted = refl

pub bid_accepted : bid_call ≡ some (ok (answer_of bid_call), after_bid)
unfolding with_clock add_market Sequencer.new StateStore.new Orderbook.new HashMap.get
    HashMap.insert bytes_eq pair_eq ℕ_discrete process_order validate validate_fields
    verify_signature is_active is_active_status validate_price validate_size is_multiple_of
    idempotency_check check_and_update_nonce accept admit settle mathlib.Core.Bool.decide
    match_order for_each bid_prices_desc BTreeMap.keys register_accepted append_event
bid_accepted = refl

-- Their ids are in no use before.
pub no_order : HashMap.get engine.order_market_index (1 ∷ []) ≡ none
unfolding with_clock add_market Sequencer.new StateStore.new Orderbook.new HashMap.get
    HashMap.insert bytes_eq pair_eq ℕ_discrete process_order validate validate_fields
    verify_signature is_active is_active_status validate_price validate_size is_multiple_of
    idempotency_check check_and_update_nonce accept admit settle mathlib.Core.Bool.decide
    match_order for_each bid_prices_desc ask_prices_asc BTreeMap.keys register_accepted append_event
no_order = refl

pub no_second_order : HashMap.get after_ask.order_market_index (2 ∷ []) ≡ none
unfolding with_clock add_market Sequencer.new StateStore.new Orderbook.new HashMap.get
    HashMap.insert bytes_eq pair_eq ℕ_discrete process_order validate validate_fields
    verify_signature is_active is_active_status validate_price validate_size is_multiple_of
    idempotency_check check_and_update_nonce accept admit settle mathlib.Core.Bool.decide
    match_order for_each bid_prices_desc ask_prices_asc BTreeMap.keys register_accepted append_event
no_second_order = refl

-- The market's book with the ask.
abbrev pub book : OrderBook
book = unwrap_or (HashMap.get after_ask.books market) Orderbook.new

pub book-found : HashMap.get after_ask.books market ≡ some book
unfolding with_clock add_market Sequencer.new StateStore.new Orderbook.new HashMap.get
    HashMap.insert bytes_eq pair_eq ℕ_discrete process_order validate validate_fields
    verify_signature is_active is_active_status validate_price validate_size is_multiple_of
    idempotency_check check_and_update_nonce accept admit settle mathlib.Core.Bool.decide
    match_order for_each bid_prices_desc ask_prices_asc BTreeMap.keys register_accepted append_event
book-found = refl

-- The bid is still valid on its own after it was taken.
pub bid-valid_again : validate crypto 1007 after_bid bid ≡ ok tt
unfolding with_clock add_market Sequencer.new StateStore.new Orderbook.new HashMap.get
    HashMap.insert bytes_eq pair_eq ℕ_discrete process_order validate validate_fields
    verify_signature is_active is_active_status validate_price validate_size is_multiple_of
    idempotency_check check_and_update_nonce accept admit settle mathlib.Core.Bool.decide
    match_order for_each bid_prices_desc ask_prices_asc BTreeMap.keys register_accepted append_event
    insert_residual is_closed remaining_size_lots sub64 Orderbook.insert BTreeMap.insert
    orders_at_price BTreeMap.get add64
bid-valid_again = refl

-- The bid as the live order that meets the book.
abbrev pub taker : Order
taker = new_order crypto (inputs 2) 2 bid

pub taker-unknown : Orderbook.get book (2 ∷ []) ≡ none
unfolding with_clock add_market Sequencer.new StateStore.new Orderbook.new HashMap.get
    HashMap.insert bytes_eq pair_eq ℕ_discrete process_order validate validate_fields
    verify_signature is_active is_active_status validate_price validate_size is_multiple_of
    idempotency_check check_and_update_nonce accept admit settle mathlib.Core.Bool.decide
    match_order for_each bid_prices_desc ask_prices_asc BTreeMap.keys register_accepted append_event
    insert_residual is_closed remaining_size_lots sub64 Orderbook.insert BTreeMap.insert
    orders_at_price BTreeMap.get add64
taker-unknown = refl

-- A bid for no lots is refused.
abbrev pub empty_bid : SignedOrder
empty_bid = signed bob buy 105 0 1

pub empty_bid-refused :
    process_order crypto (inputs 2) empty_bid after_ask ≡ some (err (order zero_size), after_ask)
unfolding with_clock add_market Sequencer.new StateStore.new Orderbook.new HashMap.get
    HashMap.insert bytes_eq pair_eq ℕ_discrete process_order validate validate_fields
    verify_signature is_active is_active_status validate_price validate_size is_multiple_of
    idempotency_check check_and_update_nonce accept admit settle mathlib.Core.Bool.decide
    match_order for_each bid_prices_desc ask_prices_asc BTreeMap.keys register_accepted append_event
empty_bid-refused = refl
