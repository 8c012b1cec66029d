-- ===== src/Tests/Races.antt =====
-- Two handlers at the same time, at the run of the sample.
use rust_matching_engine.Prelude.{
  ℕ, ◌+◌, ◌<◌, [], ◌∷◌, true, length, ok, arith, u64_mod, add64, sub64, for_each, ℕ_discrete,
}
use rust_matching_engine.HashMap.{HashMap, Bytes, bytes_eq, pair_eq, bytes_key, pair_key}
use rust_matching_engine.HashMap
use rust_matching_engine.BTreeMap
use rust_matching_engine.Domain.Market.{
  is_active, is_active_status, is_multiple_of, validate_price, validate_size,
}
use rust_matching_engine.Domain.Order.{
  validate_fields, verify_signature, remaining_size_lots, is_closed,
}
use rust_matching_engine.Sequencer.{new, idempotency_check, register_accepted, append_event}
use rust_matching_engine.Sequencer
use rust_matching_engine.StateStore.{check_and_update_nonce}
use rust_matching_engine.StateStore
use rust_matching_engine.Engine.Orderbook.{bid_prices_desc, ask_prices_asc, orders_at_price}
use rust_matching_engine.Engine.Orderbook
use rust_matching_engine.Engine.Matching.{match_order}
use rust_matching_engine.Engine.Residual.{insert_residual}
use rust_matching_engine.Engine.{
  with_clock, add_market, validate, process_order, accept, admit, settle,
}
use rust_matching_engine.Run.{reachable-IsSafe}
use rust_matching_engine.Api.Handlers.{State}
use rust_matching_engine.Api.Races.{IsSent, Races, begin, then_, call, publish, Races-send}
use rust_matching_engine.Api.{publish_since}
use rust_matching_engine.Api.Handlers.{last_committed}
use rust_matching_engine.Sequencer.Log.{IsNumbered}
use rust_matching_engine.Engine.Growth.{Grows, process_order-Grows}
use rust_matching_engine.Tests.Sample
use rust_matching_engine.Tests.Sample.{engine, ask_call, ask_accepted, ask, bid_call}
use rust_matching_engine.Tests.Calls.{engine-IsReachable}
use rust_matching_engine.Prelude.{All}
use rust_matching_engine.Tests.Sample.{
  alice, bob, market, crypto, inputs, bid, bid_accepted, after_ask, after_bid, no_second_order,
}
use rust_matching_engine.Tests.Parameters.{json, db}
use rust_matching_engine.Tests.Server.{server, after_ask-IsSafe}

-- Two handlers that both call the engine before either publishes.
abbrev idle : State json db
idle = record server { engine = engine }

abbrev first_called : State json db
first_called = record idle { engine = after_ask }

abbrev second_called : State json db
second_called = record idle { engine = after_bid }

abbrev early : ℕ
early = last_committed engine.sequencer

abbrev late : ℕ
late = last_committed after_ask.sequencer

abbrev both_published : State json db
both_published = publish_since json db true early (publish_since json db true late second_called)

idle-IsNumbered : IsNumbered idle.engine.sequencer
idle-IsNumbered = (reachable-IsSafe crypto engine engine-IsReachable).numbered

ask-Grows : Grows engine.sequencer after_ask.sequencer
ask-Grows =
    process_order-Grows crypto (inputs 1) ask engine after_ask (ok (Sample.answer_of ask_call))
      (reachable-IsSafe crypto engine engine-IsReachable).valid idle-IsNumbered (omega arith)
      ask_accepted

bid-Grows : Grows after_ask.sequencer after_bid.sequencer
bid-Grows =
    process_order-Grows crypto (inputs 2) bid after_ask after_bid (ok (Sample.answer_of bid_call))
      after_ask-IsSafe.valid after_ask-IsSafe.numbered (omega arith) bid_accepted

ask_log-bounded : 1 + length after_ask.sequencer.log < u64_mod
unfolding with_clock add_market Sequencer.new StateStore.new Orderbook.new HashMap.get
    HashMap.insert bytes_eq pair_eq ℕ_discrete process_order validate validate_fields
    verify_signature is_active is_active_status validate_price validate_size is_multiple_of
    idempotency_check check_and_update_nonce accept admit settle mathlib.Core.Bool.decide
    match_order for_each bid_prices_desc ask_prices_asc BTreeMap.keys register_accepted append_event
ask_log-bounded = omega arith

bid_log-bounded : 1 + length after_bid.sequencer.log < u64_mod
unfolding with_clock add_market Sequencer.new StateStore.new Orderbook.new HashMap.get
    HashMap.insert bytes_eq pair_eq ℕ_discrete process_order validate validate_fields
    verify_signature is_active is_active_status validate_price validate_size is_multiple_of
    idempotency_check check_and_update_nonce accept admit settle mathlib.Core.Bool.decide
    match_order for_each bid_prices_desc ask_prices_asc BTreeMap.keys register_accepted append_event
    insert_residual is_closed remaining_size_lots sub64 Orderbook.insert BTreeMap.insert
    orders_at_price BTreeMap.get add64
bid_log-bounded = omega arith

idle-IsSent : All (IsSent json db idle) idle.engine.sequencer.log
unfolding with_clock add_market Sequencer.new StateStore.new Orderbook.new HashMap.get
    HashMap.insert bytes_eq pair_eq ℕ_discrete process_order validate validate_fields
    verify_signature is_active is_active_status validate_price validate_size is_multiple_of
    idempotency_check check_and_update_nonce accept admit settle mathlib.Core.Bool.decide
    match_order for_each bid_prices_desc ask_prices_asc BTreeMap.keys register_accepted append_event
idle-IsSent = tt

interleaved : Races json db idle [] both_published []
interleaved =
    then_ (publish_since json db true late second_called) both_published (early ∷ []) []
      (then_ second_called (publish_since json db true late second_called) (late ∷ early ∷ [])
        (early ∷ [])
        (then_ first_called second_called (early ∷ []) (late ∷ early ∷ [])
          (then_ idle first_called [] (early ∷ []) begin
            (call idle [] after_ask ask-Grows ask_log-bounded))
          (call first_called (early ∷ []) after_bid bid-Grows bid_log-bounded))
        (publish second_called [] (early ∷ []) late))
      (publish (publish_since json db true late second_called) [] [] early)

Races-send_example : All (IsSent json db both_published) both_published.engine.sequencer.log
Races-send_example = Races-send json db idle both_published idle-IsNumbered idle-IsSent interleaved
