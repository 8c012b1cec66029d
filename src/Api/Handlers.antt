-- ===== src/Api/Handlers.antt =====
-- The HTTP handlers on the shared state (src/api/rest.rs).
use rust_matching_engine.Prelude.{
  ℕ, Option, none, some, List, [], ◌∷◌, if◌then◌else◌, min, saturating_sub, map, Result, ok, err,
}
use rust_matching_engine.Domain.Market.{Str}
use rust_matching_engine.Domain.Order.{Crypto, Fill, SignedOrder}
use rust_matching_engine.Sequencer.{Sequencer, peek_next_seq_id, idempotency_check}
use rust_matching_engine.Engine.{OrderResult, Inputs, process_order, process_cancel}
use rust_matching_engine.Engine.Queries
use rust_matching_engine.Risk.{RiskChecker, check, update_reference_price}
use rust_matching_engine.Pg.{Json, Database}
use rust_matching_engine.Api.{SharedState, Locks, publish_since, persist_since}
use rust_matching_engine.Api.Errors.{
  ErrorResponse, text, no_order, no_market, engine_err_to_response, risk_err_to_response,
  cancel_err_to_response,
}
use rust_matching_engine.Api.Rest.{
  Body, Headers, accepted, cancelled, state_of, book, trades, markets, accepted_response,
  cancelled_response, order_state_response, book_level, trade_response, market_response,
}

-- `peek_next_seq_id().saturating_sub(1)`
abbrev pub last_committed : Sequencer → ℕ
last_committed q = saturating_sub (peek_next_seq_id q) 1

-- The update of the reference prices after a submission.
unfoldable pub update_reference_prices : RiskChecker → List Fill → RiskChecker
update_reference_prices r [] = r
update_reference_prices r (f ∷ fs) =
    update_reference_prices (update_reference_price r f.market_id f.price_ticks) fs

-- The answer of a handler: a status and a body, or an error.
abbrev pub Answer : Type 0
Answer = Result ErrorResponse (ℕ × Body)

module _ (json : Json) (db : Database json.Value) where
  -- What a request meets: the clock of the risk checker, what the engine reads, and the locks.
  pub record Turn : Type 0 where
    pub risk_now : ℕ
    pub inputs : Inputs
    pub locks : Locks json db

  abbrev pub State : Type 0
  State = SharedState json db

  -- After an operation on the engine: the publishing and the persisting.
  unfoldable pub finish : Locks json db → ℕ → State → State
  unfolding publish_since persist_since
  finish locks seq_before s =
      persist_since json db locks.persists locks.connection seq_before
        (publish_since json db locks.publishes seq_before s)

  -- An accepted or repeated submission: the reference prices, the publishing and the answer.
  unfoldable pub reply_order : Crypto → Turn → ℕ → OrderResult → State → Answer × State
  unfolding update_reference_prices finish
  reply_order x t seq_before result s = (
    ok (if result.is_duplicate then 200 else 201, accepted (accepted_response x result)),
    finish t.locks seq_before (record s { risk = update_reference_prices s.risk result.fills }),
  )

  -- The engine call of `post_order`, after the risk checks.
  unfoldable pub submit : Crypto → Turn → SignedOrder → State → Option (Answer × State)
  unfolding reply_order
  submit x t signed s = elim (process_order x t.inputs signed s.engine) [
    | none ↦ none
    | some (err e, engine) ↦ some (err (engine_err_to_response e), record s { engine = engine })
    | some (ok result, engine) ↦
        some (
          reply_order x t (last_committed s.engine.sequencer) result (record s { engine = engine }))
  ]

  -- `none` is the panic of the engine call.
  unfoldable pub post_order : Crypto → Turn → SignedOrder → State → Option (Answer × State)
  unfolding submit
  post_order x t signed s =
      let (checked, risk) =
        check s.risk t.risk_now signed.trader_id signed.market_id signed.price_ticks
          signed.size_lots in
      elim checked [
        | err e ↦ some (err (risk_err_to_response e), record s { risk = risk })
        | ok _ ↦ submit x t signed (record s { risk = risk })
      ]

  -- The engine call of both cancel handlers, and what follows it.
  unfoldable pub cancel_as : Turn → Str → Str → State → Option (Answer × State)
  unfolding finish
  cancel_as t order_id trader_id s = elim (process_cancel t.inputs order_id trader_id s.engine) [
    | none ↦ none
    | some (err e, engine) ↦ some (err (cancel_err_to_response e), record s { engine = engine })
    | some (ok result, engine) ↦ some (
      ok (200, cancelled (cancelled_response result)),
      finish t.locks (last_committed s.engine.sequencer) (record s { engine = engine }),
    )
  ]

  unfoldable pub delete_order : Turn → Str → Headers → State → Option (Answer × State)
  unfolding cancel_as
  delete_order t order_id headers s = elim headers.trader_id [
    | none ↦ some (
      err (record {
        status = 400;
        code = "MISSING_TRADER_ID";
        message = text "X-Trader-Id header is required";
      }),
      s,
    )
    | some trader_id ↦ cancel_as t order_id trader_id s
  ]

  unfoldable pub cancel_by_client_id : Turn → Str → Str → State → Option (Answer × State)
  unfolding cancel_as
  cancel_by_client_id t trader_id client_order_id s =
      elim (idempotency_check s.engine.sequencer trader_id client_order_id) [
        | none ↦ some (
          err (record {
            status = 404;
            code = "ORDER_NOT_FOUND";
            message = text "no order found for this client_order_id";
          }),
          s,
        )
        | some rec ↦ cancel_as t rec.order_id trader_id s
      ]

  unfoldable pub get_order : Crypto → Str → State → Answer
  get_order x order_id s = elim (Queries.get_order s.engine order_id) [
    | none ↦ err (record { status = 404; code = "ORDER_NOT_FOUND"; message = no_order order_id })
    | some o ↦ ok (200, state_of (order_state_response x o))
  ]

  unfoldable pub get_book : Str → ℕ → State → Answer
  get_book market_id depth s = elim (Queries.l2_snapshot s.engine market_id (min depth 200)) [
    | none ↦ err (record { status = 404; code = "MARKET_NOT_FOUND"; message = no_market market_id })
    | some (bids, asks) ↦ ok (
      200,
      book (record {
        market_id = market_id;
        bids = map book_level bids;
        asks = map book_level asks;
      }),
    )
  ]

  unfoldable pub get_trades : Str → ℕ → ℕ → State → Answer
  get_trades market_id limit from_seq s = elim (Queries.best_prices s.engine market_id) [
    | none ↦ err (record { status = 404; code = "MARKET_NOT_FOUND"; message = no_market market_id })
    | some _ ↦ ok (
      200,
      trades (map trade_response (Queries.get_fills s.engine market_id from_seq (min limit 1000))),
    )
  ]

  unfoldable pub list_markets : State → Answer
  list_markets s = ok (200, markets (map market_response (Queries.list_markets s.engine)))
