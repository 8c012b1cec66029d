-- ===== src/Api.antt =====
-- The state that the HTTP and WebSocket handlers share, and what they publish and persist after a
-- call on the engine (src/api/mod.rs).
pub mod Since
pub mod Channels
pub mod Errors
pub mod Rest
pub mod Handlers
pub mod Router
pub mod Publish
pub mod Requests
pub mod Persist
pub mod Service
pub mod Total
pub mod Races
pub mod Limits
pub mod Ws
use Prim.Native.String.{String}
use rust_matching_engine.Prelude.{
  ℕ, Option, none, some, List, [], ◌∷◌, ◌++◌, Bool, true, false, ite, if◌then◌else◌, ltb, Result,
}
use rust_matching_engine.HashMap.{bytes_eq}
use rust_matching_engine.Domain.Market.{Str}
use rust_matching_engine.Events.{
  Event, SequencedEvent, order_accepted, order_rejected, fill, order_cancelled, market_paused,
  market_resumed,
}
use rust_matching_engine.Engine.{Engine}
use rust_matching_engine.Risk.{RiskChecker}
use rust_matching_engine.Pg.{Json, Database, Connection, append_events}

abbrev pub book_channel : Str → Str
book_channel market = b'b' ∷ b'o' ∷ b'o' ∷ b'k' ∷ b'.' ∷ b'l' ∷ b'3' ∷ b'.' ∷ market

abbrev pub trades_channel : Str → Str
trades_channel market = b't' ∷ b'r' ∷ b'a' ∷ b'd' ∷ b'e' ∷ b's' ∷ b'.' ∷ market

abbrev pub orders_channel : Str → Str
orders_channel trader = b'o' ∷ b'r' ∷ b'd' ∷ b'e' ∷ b'r' ∷ b's' ∷ b'.' ∷ trader

abbrev pub market_channel : Str → Str
market_channel market = b'm' ∷ b'a' ∷ b'r' ∷ b'k' ∷ b'e' ∷ b't' ∷ b'.' ∷ market

abbrev pub cancels_channel : Str
cancels_channel = b'c' ∷ b'a' ∷ b'n' ∷ b'c' ∷ b'e' ∷ b'l' ∷ b's' ∷ []

pub record WsEnvelope (Value : Type 0) : Type 0 where
  pub channel : Str
  pub sequence_id : ℕ
  pub event_type : String
  pub payload : Value
  pub timestamp_ms : ℕ

-- The events after a sequence number.
unfoldable pub since : ℕ → List SequencedEvent → List SequencedEvent
since n [] = []
since n (se ∷ log) = let rest = since n log in if ltb n se.seq_id then se ∷ rest else rest

module _ (json : Json) where
  abbrev pub envelope : SequencedEvent → json.Value → String → Str → WsEnvelope json.Value
  envelope se payload event_type channel = record {
    channel = channel;
    sequence_id = se.seq_id;
    event_type = event_type;
    payload = payload;
    timestamp_ms = se.timestamp_ms;
  }

  unfoldable pub envelopes_of : SequencedEvent → json.Value → Event → List (WsEnvelope json.Value)
  envelopes_of se payload (order_accepted order) =
      envelope se payload "order_accepted" (book_channel order.market_id)
      ∷ envelope se payload "order_accepted" (orders_channel order.trader_id)
      ∷ []
  envelopes_of se payload (fill f) =
      envelope se payload "fill" (trades_channel f.market_id)
      ∷ envelope se payload "fill" (orders_channel f.taker_trader_id)
      ∷ ite (bytes_eq f.maker_trader_id f.taker_trader_id) []
          (envelope se payload "fill" (orders_channel f.maker_trader_id) ∷ [])
  envelopes_of se payload (order_cancelled _ _ _) =
      envelope se payload "order_cancelled" cancels_channel ∷ []
  envelopes_of se payload (order_rejected _ trader_id _) =
      envelope se payload "order_rejected" (orders_channel trader_id) ∷ []
  envelopes_of se payload (market_paused market_id _) =
      envelope se payload "market_paused" (market_channel market_id) ∷ []
  envelopes_of se payload (market_resumed market_id _) =
      envelope se payload "market_resumed" (market_channel market_id) ∷ []

  unfoldable pub from_sequenced : SequencedEvent → List (WsEnvelope json.Value)
  unfolding envelopes_of
  from_sequenced se = elim (json.event_value se.event) [
    | none ↦ []
    | some payload ↦ envelopes_of se payload se.event
  ]

  -- `flat_map(WsEnvelope::from_sequenced)`
  unfoldable pub envelopes : List SequencedEvent → List (WsEnvelope json.Value)
  unfolding from_sequenced
  envelopes [] = []
  envelopes (se ∷ log) = from_sequenced se ++ envelopes log

  module _ (db : Database json.Value) where
    -- `events` is what was sent on the broadcast channel, the first one first.
    pub record SharedState : Type 0 where
      pub engine : Engine
      pub risk : RiskChecker
      pub pg : Option db.Table
      pub events : List (WsEnvelope json.Value)
      pub admin_key : Str

    -- What a call meets: whether `try_lock` gets the engine, when the call publishes and when it
    -- persists, and the answer of the database.
    pub record Locks : Type 0 where
      pub publishes : Bool
      pub persists : Bool
      pub connection : Connection

    unfoldable pub publish_since : Bool → ℕ → SharedState → SharedState
    unfolding since envelopes
    publish_since got_lock seq_before s =
        if got_lock
        then record s { events = s.events ++ envelopes (since seq_before s.engine.sequencer.log) }
        else s

    unfoldable pub persist_since : Bool → Connection → ℕ → SharedState → SharedState
    unfolding since append_events
    persist_since got_lock connection seq_before s = elim s.pg [
      | none ↦ s
      | some table ↦
          if got_lock
          then record s {
            pg =
                some
                  (append_events json db connection (since seq_before s.engine.sequencer.log)
                    table).1;
          }
          else s
    ]
