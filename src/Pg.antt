-- ===== src/Pg.antt =====
-- The event store on Postgres (src/pg/mod.rs): what the code asks of the database, which is a
-- parameter, and how it writes and reads the log.
pub mod Holds
pub mod Appends
use Prim.Native.String.{String}
use rust_matching_engine.Prelude.{
  ℕ, ◌%◌, ◌^◌, ◌<◌, ◌≡◌, Option, none, some, List, [], ◌∷◌, ◌++◌, All, Has, map, Result, ok, err,
  ok_or, ◌>>=◌,
}
use rust_matching_engine.Events.{
  Event, SequencedEvent, order_accepted, order_rejected, fill, order_cancelled, market_paused,
  market_resumed,
}

-- A row of `sequenced_events`. The `BIGINT`s are held by their bits, as `u64`.
pub record Row (Value : Type 0) : Type 0 where
  pub seq_id : ℕ
  pub timestamp_ms : ℕ
  pub event_type : String
  pub payload : Value

-- serde_json on events.
pub record Json : Type 1 where
  pub Value : Type 0
  pub event_value : Event → Option Value
  pub to_value : SequencedEvent → Option Value
  pub from_value : Value → Option SequencedEvent

-- The table in the database: `INSERT .. ON CONFLICT (seq_id) DO NOTHING` and
-- `SELECT .. ORDER BY seq_id ASC`.
pub record Database (Value : Type 0) : Type 1 where
  pub Table : Type 0
  pub insert_or_ignore : Table → Row Value → Table
  pub select_ordered : Table → List (Row Value)

-- The answers of the connection to a call: no error, or the error that some statement meets, which
-- rolls the transaction back.
abbrev pub Connection : Type 0
Connection = Option String

pub data SqlxError : Type 0 where
  database : String → SqlxError
  protocol : SqlxError

abbrev pub event_type_tag : Event → String
event_type_tag (order_accepted _) = "order_accepted"
event_type_tag (order_rejected _ _ _) = "order_rejected"
event_type_tag (fill _) = "fill"
event_type_tag (order_cancelled _ _ _) = "order_cancelled"
event_type_tag (market_paused _ _) = "market_paused"
event_type_tag (market_resumed _ _) = "market_resumed"

module _ (json : Json) where
  unfoldable pub row_of : SequencedEvent → Result SqlxError (Row json.Value)
  row_of event = do
    payload ← ok_or (json.to_value event) protocol
    ok (record {
      seq_id = event.seq_id;
      timestamp_ms = event.timestamp_ms;
      event_type = event_type_tag event.event;
      payload = payload;
    })

  -- The events of the rows.
  unfoldable pub decode_rows : List (Row json.Value) → Result SqlxError (List SequencedEvent)
  decode_rows [] = ok []
  decode_rows (row ∷ rows) = do
    event ← ok_or (json.from_value row.payload) protocol
    events ← decode_rows rows
    ok (event ∷ events)

  module _ (db : Database json.Value) where
    -- The statements of the transaction.
    unfoldable pub insert_events : List SequencedEvent → db.Table → Result SqlxError db.Table
    unfolding row_of
    insert_events [] table = ok table
    insert_events (event ∷ events) table = do
      row ← row_of event
      insert_events events (db.insert_or_ignore table row)

    unfoldable pub append_events :
        Connection → List SequencedEvent → db.Table → Result SqlxError (Unit {0}) × db.Table
    unfolding insert_events
    append_events connection [] table = (ok tt, table)
    append_events (some e) (event ∷ events) table = (err (database e), table)
    append_events none (event ∷ events) table = elim (insert_events (event ∷ events) table) [
      | err e ↦ (err e, table)
      | ok table' ↦ (ok tt, table')
    ]

    unfoldable pub load_all_events : Connection → db.Table → Result SqlxError (List SequencedEvent)
    unfolding decode_rows
    load_all_events (some e) table = err (database e)
    load_all_events none table = decode_rows (db.select_ordered table)
