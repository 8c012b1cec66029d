-- ===== src/Tests/Parts.antt =====
-- The theorems on the parts: markets, signing bytes, the state store, the risk checks and the
-- administrative operations.
use rust_matching_engine.Prelude.{
  ℕ, ◌+◌, ◌-◌, ◌*◌, ◌≡◌, ◌<◌, ◌≤◌, ◌↔◌, refl, [], ◌∷◌, ◌++◌, List, map, some, true, arith, ◌⊎◌, Has,
  length, ok, err, ite, u64_mod, add64, ℕ_discrete, for_each,
}
use rust_matching_engine.HashMap.{bytes_eq, pair_eq, bytes_key, pair_key}
use rust_matching_engine.HashMap
use rust_matching_engine.Domain.Market.{
  Str, MarketConfig, active, paused, is_active, is_active_status, is_multiple_of, validate_price,
  validate_size,
}
use rust_matching_engine.Domain.Market.Rules.{validate_price_iff}
use rust_matching_engine.Domain.Order.{OrderId, OrderHash}
use rust_matching_engine.Events.{SequencedEvent}
use rust_matching_engine.Domain.Order.Canonical.{Fits, SameContent, canonical_bytes-injective}
use rust_matching_engine.Domain.Order.{
  canonical_bytes, is_closed, closed_status, validate_fields, verify_signature,
}
use rust_matching_engine.BTreeMap
use rust_matching_engine.Sequencer
use rust_matching_engine.Sequencer.{idempotency_check, register_accepted, append_event}
use rust_matching_engine.Engine.Orderbook
use rust_matching_engine.Engine.Orderbook.{bid_prices_desc, ask_prices_asc}
use rust_matching_engine.Engine.Matching.{match_order}
use rust_matching_engine.Engine.{validate, accept, admit, settle, new_order}
use rust_matching_engine.StateStore.{is_cancelled}
use rust_matching_engine.StateStore.{
  StateStore, NonceError, InsufficientFunds, check_and_update_nonce, last_nonce, filled_amount,
  apply_fill, balance, debit, credit,
}
use rust_matching_engine.StateStore
use rust_matching_engine.StateStore.Laws.{check_and_update_nonce_lem, debit_lem}
use rust_matching_engine.Engine.{Engine, EngineError, process_order, add_market, with_clock}
use rust_matching_engine.Engine.Validity.{SameMarkets}
use rust_matching_engine.Risk.{
  RiskChecker, RiskConfig, MarketRiskConfig, default_risk_config, update_reference_price, count,
  recent, timestamps, check, record_submission,
}
use rust_matching_engine.Risk
use rust_matching_engine.Risk.Limits.{IsAdmissible, IsSmall, check_iff}
use rust_matching_engine.Risk.Rate.{IsLimited, passed_since, extend, check-IsLimited}
use rust_matching_engine.Admin.{
  AdminError, pause_market, resume_market, find_market, pause_from, cancel_all_orders, open_orders,
}
use rust_matching_engine.Admin.Pause.{IsKeyed, IsManaged, Changes, pause_market-Changes}
use rust_matching_engine.Admin.Halts.{pause_market_refuses, pause_resume}
use rust_matching_engine.Admin.CancelAll.{event_of, forced, cancel_all_orders_lem}
use rust_matching_engine.Tests.Sample.{alice, bob, market, config, crypto, inputs, ask, after_ask}
use rust_matching_engine.Tests.Calls.{after_ask-IsValid}

validate_price_iff_example :
    (validate_price config 15 ≡ ok tt) ↔ ((0 < 15) × ((k : ℕ) × (15 ≡ config.tick_size * k)))
validate_price_iff_example = validate_price_iff config 15

-- A state store in which alice has 50 of an asset and her last nonce is 3.
abbrev store : StateStore
store = record {
  filled_amounts = [];
  cancelled = [];
  nonces = (alice, 3) ∷ [];
  balances = ((alice, market), 50) ∷ [];
}

check_and_update_nonce_lem_example :
    ((4 ≤ last_nonce store alice)
      × (check_and_update_nonce store alice 4
          ≡ err (record { last_nonce = last_nonce store alice; submitted = 4 })))
    ⊎ ((t : StateStore) × (last_nonce store alice < 4)
        × (check_and_update_nonce store alice 4 ≡ ok t)
        × ((other : Str)
            → last_nonce t other ≡ ite (bytes_eq alice other) 4 (last_nonce store other)))
check_and_update_nonce_lem_example = check_and_update_nonce_lem store alice 4

nonce-taken : check_and_update_nonce store alice 4 ≡ ok (record store { nonces = (alice, 4) ∷ [] })
unfolding check_and_update_nonce HashMap.get HashMap.insert bytes_eq ℕ_discrete
nonce-taken = refl

no_fills : filled_amount store alice + 6 + 6 < u64_mod
unfolding filled_amount HashMap.get
no_fills = omega arith

small_balance : balance store alice market < u64_mod
unfolding balance HashMap.get bytes_eq pair_eq ℕ_discrete
small_balance = omega arith

debit_lem_example :
    ((20 ≤ balance store alice market)
      × ((debit store alice market 20).0 ≡ ok tt)
      × ((t a : Str)
          → balance (debit store alice market 20).1 t a
            ≡ ite
                (pair_eq (alice, market) (t, a))
                (balance store alice market - 20)
                (balance store t a)))
    ⊎ ((balance store alice market < 20)
        × ((debit store alice market 20).0
            ≡ err (record { available = balance store alice market; required = 20 }))
        × ((t a : Str) → balance (debit store alice market 20).1 t a ≡ balance store t a))
debit_lem_example = debit_lem store alice market 20 small_balance

-- A checker with a band of 5% around 1000 and at most 50 lots.
abbrev checker : RiskChecker
checker = record {
  config = record {
    max_orders_per_window = 2;
    window_ms = 100;
    markets = (market, record { max_order_size_lots = 50; price_band_bps = 500 }) ∷ [];
  };
  windows = (alice, 900 ∷ []) ∷ [];
  reference_prices = (market, 1000) ∷ [];
}

checker-IsSmall : IsSmall checker market 1040
unfolding IsSmall HashMap.get bytes_eq ℕ_discrete
checker-IsSmall = (omega arith, λ cfg reference h k. ground arith)

check_iff_example :
    ((check checker 950 alice market 1040 30).0 ≡ ok tt)
    ↔ IsAdmissible checker 950 alice market 1040 30
check_iff_example = check_iff checker 950 alice market 1040 30 checker-IsSmall

-- A checker that has seen nothing.
abbrev idle : RiskChecker
idle = Risk.with_clock default_risk_config

idle-IsLimited : IsLimited idle [] 0
unfolding Risk.with_clock count recent timestamps HashMap.get passed_since
idle-IsLimited = record {
  counted = λ trader later h. refl;
  limited = λ trader later h. omega arith;
}

check-IsLimited_example :
    IsLimited
      (check idle 950 alice market 1040 30).1
      (extend (check idle 950 alice market 1040 30).0 alice 950 [])
      950
check-IsLimited_example =
    check-IsLimited idle [] 950 0 alice market 1040 30 (omega arith) idle-IsLimited

ask-Fits : Fits ask
ask-Fits = record {
  version = omega arith;
  market = omega arith;
  trader = omega arith;
  client = omega arith;
  price = omega arith;
  size = omega arith;
  nonce = omega arith;
  expiry = omega arith;
  created = omega arith;
  salt = omega arith;
}

signed_ask-Fits : Fits (record ask { signature = 5 ∷ [] })
signed_ask-Fits = record {
  version = omega arith;
  market = omega arith;
  trader = omega arith;
  client = omega arith;
  price = omega arith;
  size = omega arith;
  nonce = omega arith;
  expiry = omega arith;
  created = omega arith;
  salt = omega arith;
}

canonical_bytes-injective_example : SameContent ask (record ask { signature = 5 ∷ [] })
canonical_bytes-injective_example =
    canonical_bytes-injective ask (record ask { signature = 5 ∷ [] }) ask-Fits signed_ask-Fits
      (unfold canonical_bytes in refl)

after_ask-IsKeyed : IsKeyed after_ask.markets
unfolding IsKeyed with_clock add_market Sequencer.new StateStore.new Orderbook.new HashMap.get
    HashMap.insert bytes_eq pair_eq ℕ_discrete process_order validate validate_fields
    verify_signature is_active is_active_status validate_price validate_size is_multiple_of
    idempotency_check check_and_update_nonce accept admit settle mathlib.Core.Bool.decide
    match_order for_each bid_prices_desc ask_prices_asc BTreeMap.keys register_accepted append_event
after_ask-IsKeyed = (refl, tt)

after_ask-IsManaged : IsManaged after_ask
after_ask-IsManaged = record { valid = after_ask-IsValid; keyed = after_ask-IsKeyed }

-- The pause of the market of the ask.
abbrev paused_engine : Engine
paused_engine = (pause_market (inputs 3) after_ask market alice).1

pause-ok : (pause_market (inputs 3) after_ask market alice).0 ≡ ok 2
unfolding pause_market find_market pause_from with_clock add_market Sequencer.new StateStore.new
    Orderbook.new HashMap.get HashMap.insert bytes_eq pair_eq ℕ_discrete process_order validate
    validate_fields verify_signature is_active is_active_status validate_price validate_size
    is_multiple_of idempotency_check check_and_update_nonce accept admit settle
    mathlib.Core.Bool.decide match_order for_each bid_prices_desc ask_prices_asc BTreeMap.keys
    register_accepted append_event Sequencer.peek_next_seq_id add64
pause-ok = refl

pause_market_refuses_example :
    (r : EngineError) × (process_order crypto (inputs 4) ask paused_engine
      ≡ some (err r, paused_engine))
pause_market_refuses_example =
    pause_market_refuses (inputs 3) (inputs 4) after_ask alice 2 crypto ask after_ask-IsManaged
      pause-ok

pause_resume_example :
    ((resume_market (inputs 4) paused_engine market bob).0 ≡ ok paused_engine.sequencer.next_seq_id)
    × ((k : Str)
        → HashMap.get (resume_market (inputs 4) paused_engine market bob).1.markets k
          ≡ HashMap.get after_ask.markets k)
    × ((resume_market (inputs 4) paused_engine market bob).1.books ≡ after_ask.books)
    × ((resume_market (inputs 4) paused_engine market bob).1.state ≡ after_ask.state)
    × ((resume_market (inputs 4) paused_engine market bob).1.order_market_index
        ≡ after_ask.order_market_index)
pause_resume_example =
    pause_resume (inputs 3) (inputs 4) after_ask market alice bob 2 after_ask-IsManaged pause-ok

pause_market-Changes_example :
    ((m : MarketConfig) × (m.status ≡ active)
      × ((pause_market (inputs 3) after_ask market alice).0 ≡ ok after_ask.sequencer.next_seq_id)
      × Changes after_ask (pause_market (inputs 3) after_ask market alice).1 market m paused)
    ⊎ ((r : AdminError) × ((pause_market (inputs 3) after_ask market alice).0 ≡ err r)
        × ((pause_market (inputs 3) after_ask market alice).1 ≡ after_ask))
pause_market-Changes_example =
    pause_market-Changes (inputs 3) after_ask market alice after_ask-IsManaged

cancel_all-ok : (cancel_all_orders (inputs 3) after_ask market).0 ≡ ok 1
unfolding cancel_all_orders find_market open_orders is_closed closed_status new_order with_clock
    add_market Sequencer.new StateStore.new Orderbook.new HashMap.get HashMap.insert bytes_eq
    pair_eq ℕ_discrete process_order validate validate_fields verify_signature is_active
    is_active_status validate_price validate_size is_multiple_of idempotency_check
    check_and_update_nonce accept admit settle mathlib.Core.Bool.decide match_order for_each
    bid_prices_desc ask_prices_asc BTreeMap.keys register_accepted append_event
cancel_all-ok = refl

cancel_all_orders_lem_example :
    (1 ≡ length (open_orders market after_ask.sequencer.log))
    × ((id : OrderId) (h : OrderHash)
        → Has (open_orders market after_ask.sequencer.log) (id, h)
        → is_cancelled (cancel_all_orders (inputs 3) after_ask market).1.state h ≡ true)
    × ((new : List SequencedEvent) × ((cancel_all_orders
            (inputs 3)
            after_ask
            market).1.sequencer.log
          ≡ after_ask.sequencer.log ++ new)
        × (map event_of new ≡ map forced (open_orders market after_ask.sequencer.log)))
    × SameMarkets after_ask (cancel_all_orders (inputs 3) after_ask market).1
cancel_all_orders_lem_example = cancel_all_orders_lem (inputs 3) after_ask market 1 cancel_all-ok
