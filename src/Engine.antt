-- ===== src/Engine.antt =====
-- The engine: validation, sequencing, matching and the state store (src/engine/mod.rs).
pub mod Orderbook
pub mod Queries
pub mod Matching
pub mod Residual
pub mod Validity
pub mod Submit
pub mod Cancel
pub mod Gates
pub mod History
pub mod Trace
pub mod Growth
use rust_matching_engine.Prelude.{
  ℕ, Option, none, some, List, [], ◌∷◌, ◌++◌, ◌&&◌, if◌then◌else◌, Bool, true, false, ite, leb, ltb,
  ◌==◌, not, decide, Result, ok, err, guard, ok_or, map_err, unwrap_or, ◌>>=◌, ◌>>◌, take,
}
use rust_matching_engine.HashMap.{HashMap, bytes_eq, bytes_key, pair_key}
use rust_matching_engine.HashMap
use rust_matching_engine.BTreeMap
use rust_matching_engine.Domain.Market.{
  Str, MarketConfig, MarketError, is_active, validate_price, validate_size,
}
use rust_matching_engine.Domain.Order
use rust_matching_engine.Domain.Order.{
  Order, SignedOrder, OrderId, OrderHash, OrderStatus, OrderError, Fill, Crypto, open_, filled,
  cancelled_stp, validate_fields, verify_signature, canonical_hash, is_closed,
}
use rust_matching_engine.Events.{
  Event, SequencedEvent, CancelReason, trader_request, self_trade_prevention, order_accepted,
  order_cancelled,
}
use rust_matching_engine.Events
use rust_matching_engine.Sequencer.{
  Sequencer, IdempotencyRecord, peek_next_seq_id, append_event, idempotency_check,
  register_accepted,
}
use rust_matching_engine.Sequencer
use rust_matching_engine.StateStore.{
  StateStore, NonceError, check_and_update_nonce, apply_fill, cancel_order,
}
use rust_matching_engine.StateStore
use rust_matching_engine.Engine.Orderbook.{OrderBook, PriceLevel}
use rust_matching_engine.Engine.Orderbook
use rust_matching_engine.Engine.Matching.{MatchState, match_order}
use rust_matching_engine.Engine.Residual.{insert_residual}

pub record OrderResult : Type 0 where
  pub order_id : OrderId
  pub order_hash : OrderHash
  pub seq_id : ℕ
  pub fills : List Fill
  pub final_status : OrderStatus
  pub is_duplicate : Bool

pub record CancelResult : Type 0 where
  pub order_id : OrderId
  pub seq_id : Option ℕ
  pub was_already_closed : Bool

pub data CancelError : Type 0 where
  not_found unauthorized : Str → CancelError

pub data EngineError : Type 0 where
  order : OrderError → EngineError
  nonce : NonceError → EngineError

pub record Engine : Type 0 where
  pub books : HashMap Str OrderBook
  pub markets : HashMap Str MarketConfig
  pub sequencer : Sequencer
  pub state : StateStore
  pub order_market_index : HashMap OrderId Str

-- What a call reads from outside: the engine's clock, a new UUID, and the wall clock at the append
-- of each event (by its sequence number).
pub record Inputs : Type 0 where
  pub now_ms : ℕ
  pub new_order_id : OrderId
  pub stamp : ℕ → ℕ

unfoldable pub with_clock : Engine
unfolding Sequencer.new StateStore.new
with_clock = record {
  books = [];
  markets = [];
  sequencer = Sequencer.new;
  state = StateStore.new;
  order_market_index = [];
}

unfoldable pub add_market : Engine → MarketConfig → Engine
unfolding Orderbook.new
add_market e config = record e {
  books = elim (HashMap.get e.books config.id) [
    | none ↦ HashMap.insert e.books config.id Orderbook.new
    | some _ ↦ e.books
  ];
  markets = HashMap.insert e.markets config.id config;
}

-- `sequencer.append_event(event)`
unfoldable pub append : Inputs → Sequencer → Event → Sequencer
append i s event = append_event s (i.stamp s.next_seq_id) event

unfoldable pub find_order : Engine → OrderId → Option Order
find_order e order_id = elim (HashMap.get e.order_market_index order_id) [
  | none ↦ none
  | some market_id ↦ elim (HashMap.get e.books market_id) [
    | none ↦ none
    | some book ↦ Orderbook.get book order_id
  ]
]

-- Steps 1 to 5 of `process_order`.
unfoldable pub validate : Crypto → ℕ → Engine → SignedOrder → Result EngineError (Unit {0})
validate x now_ms e s = do
  map_err order (validate_fields s now_ms)
  map_err order (verify_signature x s)
  guard (decide (bytes_eq s.trader_id (x.hex_encode s.trader_pubkey)))
      (order Order.trader_id_mismatch)
  market ← ok_or (HashMap.get e.markets s.market_id) (order (Order.market_not_found s.market_id))
  guard (is_active market) (order (Order.market_not_active s.market_id))
  map_err (λ (_ : MarketError). order (Order.invalid_tick s.price_ticks market.tick_size))
      (validate_price market s.price_ticks)
  map_err (λ (_ : MarketError). order (Order.invalid_lot s.size_lots market.lot_size))
      (validate_size market s.size_lots)

-- Step 8: the live order of an accepted submission.
unfoldable pub new_order : Crypto → Inputs → ℕ → SignedOrder → Order
new_order x i seq_id s = record {
  order_id = i.new_order_id;
  client_order_id = s.client_order_id;
  order_hash = canonical_hash x s;
  market_id = s.market_id;
  trader_id = s.trader_id;
  trader_pubkey = s.trader_pubkey;
  side = s.side;
  price_ticks = s.price_ticks;
  orig_size_lots = s.size_lots;
  filled_size_lots = 0;
  time_in_force = s.time_in_force;
  nonce = s.nonce;
  expiry_ts_ms = s.expiry_ts_ms;
  status = open_;
  created_sequence = seq_id;
  last_update_sequence = seq_id;
  accepted_at_ms = i.now_ms;
}

-- Step 8: the event, the idempotency entry and the index.
unfoldable pub admit : Inputs → Engine → Order → Engine
unfolding append
admit i e o = record e {
  sequencer =
      register_accepted (append i e.sequencer (order_accepted o)) o.trader_id o.client_order_id
        o.created_sequence o.order_id o.order_hash i.now_ms;
  order_market_index = HashMap.insert e.order_market_index o.order_id o.market_id;
}

-- Step 10: the fill events, each with its entry in the state store.
unfoldable pub record_fills : Inputs → List Fill → Engine → Engine
unfolding append
record_fills i [] e = e
record_fills i (f ∷ fs) e = record_fills i fs (record e {
  sequencer = append i e.sequencer (Events.Event.fill f);
  state = apply_fill e.state f.taker_order_hash f.maker_order_hash f.size_lots;
})

unfoldable pub is_stp : OrderStatus → Bool
is_stp cancelled_stp = true
is_stp _ = false

-- Step 11.
unfoldable pub record_stp : Inputs → Order → Engine → Engine
unfolding append is_stp
record_stp i o e =
    if is_stp o.status
    then record e {
      sequencer =
          append i e.sequencer (order_cancelled o.order_id o.order_hash self_trade_prevention);
      state = cancel_order e.state o.order_hash;
    }
    else e

-- Steps 9 to 12, with the order's book at hand.
unfoldable pub settle : Inputs → Order → OrderBook → Engine → OrderResult × Engine
unfolding record_fills record_stp
settle i o book e =
    let m = match_order book o o.created_sequence i.now_ms in
    let e' = record_stp i m.taker (record_fills i m.fills e) in
    (
      record {
        order_id = o.order_id;
        order_hash = o.order_hash;
        seq_id = o.created_sequence;
        fills = m.fills;
        final_status = m.taker.status;
        is_duplicate = false;
      },
      record e' { books = HashMap.insert e'.books o.market_id (insert_residual m.book m.taker) },
    )

-- Steps 8 to 12; `none` is the panic of `books.get_mut(..).unwrap()`.
unfoldable pub accept : Inputs → Order → Engine → Option (Result EngineError OrderResult × Engine)
unfolding admit settle
accept i o e =
    let e' = admit i e o in
    elim (HashMap.get e'.books o.market_id) [
      | none ↦ none
      | some book ↦ let (r, e'') = settle i o book e' in some (ok r, e'')
    ]

-- Step 6: the reply to a duplicate.
unfoldable pub duplicate_result : Engine → IdempotencyRecord → OrderResult
unfolding find_order
duplicate_result e r = record {
  order_id = r.order_id;
  order_hash = r.order_hash;
  seq_id = r.original_seq_id;
  fills = [];
  final_status = elim (find_order e r.order_id) [ none ↦ filled | some o ↦ o.status ];
  is_duplicate = true;
}

-- The reply and the engine after the call; `none` is a panic.
unfoldable pub process_order :
    Crypto → Inputs → SignedOrder → Engine → Option (Result EngineError OrderResult × Engine)
unfolding validate new_order accept duplicate_result
process_order x i s e = elim (validate x i.now_ms e s) [
  | err r ↦ some (err r, e)
  | ok _ ↦ elim (idempotency_check e.sequencer s.trader_id s.client_order_id) [
    | some r ↦ some (ok (duplicate_result e r), e)
    | none ↦ elim (check_and_update_nonce e.state s.trader_id s.nonce) [
      | err n ↦ some (err (nonce n), e)
      | ok state ↦
          accept i (new_order x i (peek_next_seq_id e.sequencer) s) (record e { state = state })
    ]
  ]
]

-- The cancel of an order that is found in its book.
unfoldable pub cancel_in_book :
    Inputs
    → Str
    → OrderBook
    → Order
    → OrderId
    → Str
    → Engine
    → Result CancelError CancelResult × Engine
unfolding append
cancel_in_book i market_id book o order_id trader_id e =
    ite (bytes_eq o.trader_id trader_id)
      (if is_closed o
        then (ok (record { order_id = order_id; seq_id = none; was_already_closed = true }), e)
        else (
          ok (record {
            order_id = order_id;
            seq_id = some (peek_next_seq_id e.sequencer);
            was_already_closed = false;
          }),
          record e {
            sequencer = append i e.sequencer (order_cancelled order_id o.order_hash trader_request);
            state = cancel_order e.state o.order_hash;
            books = HashMap.insert e.books market_id (Orderbook.cancel book order_id).0;
          },
        ))
      (err (unauthorized trader_id), e)

unfoldable pub process_cancel :
    Inputs → OrderId → Str → Engine → Option (Result CancelError CancelResult × Engine)
unfolding cancel_in_book
process_cancel i order_id trader_id e = elim (HashMap.get e.order_market_index order_id) [
  | none ↦ some (err (not_found order_id), e)
  | some market_id ↦ elim (HashMap.get e.books market_id) [
    | none ↦ none
    | some book ↦ elim (Orderbook.get book order_id) [
      | none ↦ some (err (not_found order_id), e)
      | some o ↦ some (cancel_in_book i market_id book o order_id trader_id e)
    ]
  ]
]
