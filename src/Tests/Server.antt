-- ===== src/Tests/Server.antt =====
-- The theorems on requests and connections, at the run of the sample.
use rust_matching_engine.Prelude.{
  ℕ, ◌+◌, ◌<◌, ◌≤◌, ◌≡◌, refl, ◌⊎◌, inl, inr, Option, none, some, List, [], ◌∷◌, ◌++◌, true, length,
  ok, err, arith, u64_mod, add64, sub64, for_each, ℕ_discrete,
}
use rust_matching_engine.HashMap.{HashMap, Bytes, bytes_eq, pair_eq, bytes_key, pair_key}
use rust_matching_engine.HashMap
use rust_matching_engine.BTreeMap
use rust_matching_engine.Domain.Market.{
  is_active, is_active_status, is_multiple_of, validate_price, validate_size,
}
use rust_matching_engine.Domain.Order.{
  Fill, validate_fields, verify_signature, remaining_size_lots, is_closed,
}
use rust_matching_engine.Events.{SequencedEvent, fill}
use rust_matching_engine.Sequencer.{new, idempotency_check, register_accepted, append_event}
use rust_matching_engine.Sequencer
use rust_matching_engine.StateStore.{check_and_update_nonce}
use rust_matching_engine.StateStore
use rust_matching_engine.Engine.Orderbook.{bid_prices_desc, ask_prices_asc, orders_at_price}
use rust_matching_engine.Engine.Orderbook
use rust_matching_engine.Engine.Matching.{match_order}
use rust_matching_engine.Engine.Residual.{insert_residual}
use rust_matching_engine.Engine.{
  with_clock, add_market, validate, process_order, accept, admit, settle,
}
use rust_matching_engine.Engine.Queries.{best_prices, fills_from}
use rust_matching_engine.Risk
use rust_matching_engine.Risk.{default_risk_config}
use rust_matching_engine.Run.{IsReachable, IsSafe, reachable-IsSafe}
use rust_matching_engine.Api.{WsEnvelope, envelope, from_sequenced, trades_channel, market_channel}
use rust_matching_engine.Api.Channels.{Fits, Concerns, channels, from_sequenced-Fits}
use rust_matching_engine.Api.Errors.{ErrorResponse, text}
use rust_matching_engine.Api.Rest.{Request, Headers, TradeResponse, trades}
use rust_matching_engine.Api.Rest
use rust_matching_engine.Api.Handlers.{
  Answer, Turn, State, get_trades, post_order, submit, reply_order, finish,
}
use rust_matching_engine.Api.Router.{handle}
use rust_matching_engine.Api.Publish.{IsInRange, Published}
use rust_matching_engine.Api.Requests.{headers_of, handle-publishes, admin-refused}
use rust_matching_engine.Api.Service.{handle-IsSafe}
use rust_matching_engine.Api.Total.{handle-answers}
use rust_matching_engine.Api.Limits.{get_trades-limit}
use rust_matching_engine.Api.Ws.{
  Connection, add, contains, handle_socket, text_frame, other_frame, lagged, disconnected,
}
use rust_matching_engine.Api.Ws.Delivery.{
  broadcasts, sent_envelopes, frames, wanted, reply, subscribe-delivers,
}
use rust_matching_engine.Tests.Sample.{
  alice, bob, market, crypto, inputs, bid, after_ask, after_bid, no_second_order,
}
use rust_matching_engine.Tests.Calls.{after_ask-IsReachable}
use rust_matching_engine.Tests.Parameters.{json, db, transport, works}

-- A server with the engine after the ask.
abbrev pub server : State json db
server = record {
  engine = after_ask;
  risk = Risk.with_clock default_risk_config;
  pg = none;
  events = [];
  admin_key = 5 ∷ [];
}

abbrev turn : Turn json db
turn = record {
  risk_now = 1002;
  inputs = inputs 2;
  locks = record { publishes = true; persists = true; connection = none };
}

abbrev headers : Headers
headers = record { trader_id = none; admin_key = some (6 ∷ []) }

pub after_ask-IsSafe : IsSafe after_ask
after_ask-IsSafe = reachable-IsSafe crypto after_ask after_ask-IsReachable

bid-IsInRange : IsInRange (Rest.post_order bid)
bid-IsInRange = unfold IsInRange in omega arith

handle-answers_example :
    (answer : Answer) × (s' : State json db) × (handle json db crypto turn
        (Rest.post_order bid)
        server
      ≡ some (answer, s'))
handle-answers_example =
    handle-answers json db crypto turn (Rest.post_order bid) server after_ask-IsSafe.valid
      bid-IsInRange no_second_order

abbrev server_call : Option (Answer × State json db)
server_call = handle json db crypto turn (Rest.post_order bid) server

abbrev no_answer : Answer
no_answer = err (record { status = 0; code = ""; message = text "" })

abbrev answer_of : Option (Answer × State json db) → Answer
answer_of none = no_answer
answer_of (some (a, _)) = a

abbrev state_of : Option (Answer × State json db) → State json db
state_of none = server
state_of (some (_, s)) = s

call_answered : server_call ≡ some (answer_of server_call, state_of server_call)
unfolding with_clock add_market Sequencer.new StateStore.new Orderbook.new HashMap.get
    HashMap.insert bytes_eq pair_eq ℕ_discrete process_order validate validate_fields
    verify_signature is_active is_active_status validate_price validate_size is_multiple_of
    idempotency_check check_and_update_nonce accept admit settle mathlib.Core.Bool.decide
    match_order for_each bid_prices_desc ask_prices_asc BTreeMap.keys register_accepted append_event
    insert_residual is_closed remaining_size_lots sub64 Orderbook.insert BTreeMap.insert
    orders_at_price BTreeMap.get add64 handle post_order submit reply_order finish Risk.check
    Risk.with_clock
call_answered = refl

call_bounded : 1 + length (state_of server_call).engine.sequencer.log < u64_mod
unfolding with_clock add_market Sequencer.new StateStore.new Orderbook.new HashMap.get
    HashMap.insert bytes_eq pair_eq ℕ_discrete process_order validate validate_fields
    verify_signature is_active is_active_status validate_price validate_size is_multiple_of
    idempotency_check check_and_update_nonce accept admit settle mathlib.Core.Bool.decide
    match_order for_each bid_prices_desc ask_prices_asc BTreeMap.keys register_accepted append_event
    insert_residual is_closed remaining_size_lots sub64 Orderbook.insert BTreeMap.insert
    orders_at_price BTreeMap.get add64 handle post_order submit reply_order finish Risk.check
    Risk.with_clock
call_bounded = omega arith

handle-publishes_example : Published json db server (state_of server_call)
handle-publishes_example =
    handle-publishes json db crypto turn refl (Rest.post_order bid) server (state_of server_call)
      (answer_of server_call) after_ask-IsSafe.valid after_ask-IsSafe.numbered bid-IsInRange
      call_answered call_bounded

handle-IsSafe_example :
    IsReachable crypto (state_of server_call).engine × IsSafe (state_of server_call).engine
handle-IsSafe_example =
    handle-IsSafe json db crypto turn (Rest.post_order bid) server (state_of server_call)
      (answer_of server_call) after_ask-IsReachable bid-IsInRange no_second_order call_answered

-- A request to pause the market, with a wrong key.
abbrev pause_request : Request
pause_request = Rest.admin_pause_market headers market bob

is_admin : headers_of pause_request ≡ some headers
is_admin = unfold headers_of in refl

admin-refused_example :
    (e : ErrorResponse) × (handle json db crypto turn pause_request server ≡ some (err e, server))
    × (e.status ≡ 401)
admin-refused_example =
    admin-refused json db crypto turn pause_request headers server is_admin (inr (λ h. cc h))

-- The server after both orders.
abbrev traded : State json db
traded = record server { engine = after_bid }

abbrev answered_trades : Answer → List TradeResponse
answered_trades (ok (_, trades ts)) = ts
answered_trades _ = []

abbrev query : Answer
query = get_trades json db market 5 0 traded

query_answered : query ≡ ok (200, trades (answered_trades query))
unfolding with_clock add_market Sequencer.new StateStore.new Orderbook.new HashMap.get
    HashMap.insert bytes_eq pair_eq ℕ_discrete process_order validate validate_fields
    verify_signature is_active is_active_status validate_price validate_size is_multiple_of
    idempotency_check check_and_update_nonce accept admit settle mathlib.Core.Bool.decide
    match_order for_each bid_prices_desc ask_prices_asc BTreeMap.keys register_accepted append_event
    insert_residual is_closed remaining_size_lots sub64 Orderbook.insert BTreeMap.insert
    orders_at_price BTreeMap.get add64 get_trades best_prices
query_answered = refl

get_trades-limit_example :
    ((0 < 5) × (length (answered_trades query) ≤ 5) × (length (answered_trades query) ≤ 1000))
    ⊎ ((◌≡◌ {A = ℕ} 5 0)
        × (length (answered_trades query)
            ≡ length (fills_from market 0 traded.engine.sequencer.log)))
get_trades-limit_example =
    get_trades-limit json db market 5 0 traded (answered_trades query) query_answered

-- A fill of the market, at which bob takes alice's ask.
abbrev trade : Fill
trade = record {
  market_id = market;
  taker_order_id = 2 ∷ [];
  taker_order_hash = 2 ∷ [];
  taker_trader_id = bob;
  maker_order_id = 1 ∷ [];
  maker_order_hash = 1 ∷ [];
  maker_trader_id = alice;
  price_ticks = 100;
  size_lots = 4;
  sequence_id = 2;
  executed_at_ms = 1002;
}

abbrev trade_event : SequencedEvent
trade_event = record { seq_id = 3; timestamp_ms = 1003; event = fill trade }

from_sequenced-Fits_example :
    Fits (Concerns (fill trade)) (channels json (from_sequenced json trade_event))
from_sequenced-Fits_example = from_sequenced-Fits json trade_event (inl (fill trade)) refl

-- A connection of a client that will ask for the trades of the market.
abbrev connection : Connection json (transport (trades_channel market))
connection = record { socket = []; subscriptions = [] }

abbrev trades_log : List SequencedEvent
trades_log = trade_event ∷ []

-- What is published later: an event on the channel of the trades, and one on the channel of the market.
abbrev later_envelopes : List (List SequencedEvent × WsEnvelope json.Value)
later_envelopes =
    (trades_log, envelope json trade_event (inl (fill trade)) "Fill" (trades_channel market))
    ∷ (trades_log, envelope json trade_event (inl (fill trade)) "Fill" (market_channel market))
    ∷ []

subscribe-delivers_example :
    ((works (trades_channel market)).arrived
        (handle_socket json
          (transport (trades_channel market))
          ((trades_log, text_frame [])
            ∷ broadcasts json
                (transport (trades_channel market))
                (works (trades_channel market))
                later_envelopes)
          connection).socket
      ≡ ([]
          ++ reply json
              (transport (trades_channel market))
              (works (trades_channel market))
              trades_log
              (trades_channel market)
              1)
        ++ frames json (transport (trades_channel market)) (works (trades_channel market)) (
            wanted json
              (transport (trades_channel market))
              (works (trades_channel market))
              (add [] (trades_channel market))
              (sent_envelopes json
                (transport (trades_channel market))
                (works (trades_channel market))
                later_envelopes)))
    × ((works (trades_channel market)).arrived
          (handle_socket json
            (transport (trades_channel market))
            ((trades_log, text_frame [])
              ∷ (broadcasts json
                    (transport (trades_channel market))
                    (works (trades_channel market))
                    later_envelopes
                  ++ (trades_log, lagged) ∷ (trades_log, other_frame) ∷ []))
            connection).socket
        ≡ (works (trades_channel market)).arrived
            (handle_socket json
              (transport (trades_channel market))
              ((trades_log, text_frame [])
                ∷ broadcasts json
                    (transport (trades_channel market))
                    (works (trades_channel market))
                    later_envelopes)
              connection).socket
          ++ (works (trades_channel market)).frame (disconnected "lagged") ∷ [])
    × (contains (add [] (trades_channel market)) (trades_channel market) ≡ true)
subscribe-delivers_example =
    subscribe-delivers json (transport (trades_channel market)) (works (trades_channel market))
      connection trades_log [] (trades_channel market) 1 later_envelopes trades_log
      ((trades_log, other_frame) ∷ []) refl (omega arith)
