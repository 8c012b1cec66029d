-- ===== src/Startup.antt =====
-- The start of the server: its markets, the restored engine and the shared state (src/main.rs and
-- src/api/mod.rs).
use rust_matching_engine.Prelude.{◌≡◌, ◌≢◌, refl, Option, none, some, List, [], ◌∷◌, ok, err}
use rust_matching_engine.Domain.Market.{Str, MarketConfig, active}
use rust_matching_engine.Domain.Order.{Crypto}
use rust_matching_engine.Events.{SequencedEvent}
use rust_matching_engine.Engine.{Engine, with_clock, add_market}
use rust_matching_engine.Risk.{RiskChecker, default_risk_config}
use rust_matching_engine.Risk
use rust_matching_engine.Restore.{restore_from_events}
use rust_matching_engine.Restore.Refines.{SameRecords}
use rust_matching_engine.Run.{IsReachable, restore-SameRecords}
use rust_matching_engine.Pg.{Json, Database, Connection, load_all_events}
use rust_matching_engine.Pg.Holds.{IsCodec, IsTable, Holds}
use rust_matching_engine.Pg.Appends.{load_all_events-Holds}
use rust_matching_engine.Api.{SharedState}

abbrev pub usdc : Str
usdc = b'U' ∷ b'S' ∷ b'D' ∷ b'C' ∷ []

abbrev pub btc_usdc : MarketConfig
btc_usdc = record {
  id = b'B' ∷ b'T' ∷ b'C' ∷ b'-' ∷ b'U' ∷ b'S' ∷ b'D' ∷ b'C' ∷ [];
  base_asset = b'B' ∷ b'T' ∷ b'C' ∷ [];
  quote_asset = usdc;
  tick_size = 1000;
  lot_size = 1;
  fee_bps_maker = 10;
  fee_bps_taker = 20;
  status = active;
}

abbrev pub eth_usdc : MarketConfig
eth_usdc = record {
  id = b'E' ∷ b'T' ∷ b'H' ∷ b'-' ∷ b'U' ∷ b'S' ∷ b'D' ∷ b'C' ∷ [];
  base_asset = b'E' ∷ b'T' ∷ b'H' ∷ [];
  quote_asset = usdc;
  tick_size = 100;
  lot_size = 1;
  fee_bps_maker = 10;
  fee_bps_taker = 20;
  status = active;
}

-- The engine with its markets.
unfoldable pub first_engine : Engine
first_engine = add_market (add_market with_clock btc_usdc) eth_usdc

module _ (json : Json) (db : Database json.Value) where
  -- The restored engine. A load that fails, or that finds no events, leaves the engine as it is; the
  -- outer `none` is the panic of a restore that fails.
  unfoldable pub restored_engine : Option db.Table → Connection → Option Engine
  unfolding first_engine
  restored_engine none connection = some first_engine
  restored_engine (some table) connection = elim (load_all_events json db connection table) [
    | err e ↦ some first_engine
    | ok [] ↦ some first_engine
    | ok (se ∷ log) ↦
        let (restored, engine) = restore_from_events first_engine (se ∷ log) in
        elim restored [ err r ↦ none | ok _ ↦ some engine ]
  ]

  unfoldable pub new_state : Engine → RiskChecker → Option db.Table → Str → SharedState json db
  new_state engine risk pg admin_key = record {
    engine = engine;
    risk = risk;
    pg = pg;
    events = [];
    admin_key = admin_key;
  }

  -- The shared state at the start.
  unfoldable pub start : Option db.Table → Connection → Str → Option (SharedState json db)
  unfolding restored_engine new_state
  start pg connection admin_key = elim (restored_engine pg connection) [
    | none ↦ none
    | some engine ↦ some (new_state engine (Risk.with_clock default_risk_config) pg admin_key)
  ]

  restored :
      (table : db.Table) (log : List SequencedEvent)
      → log ≢ []
      → load_all_events json db none table ≡ ok log
      → (restore_from_events first_engine log).0 ≡ ok tt
      → restored_engine (some table) none ≡ some (restore_from_events first_engine log).1
  restored table [] some_ loaded good = absurd (some_ refl)
  restored table (se ∷ log) some_ loaded good =
      unfold restored_engine in rw (loaded, restored_engine, good) refl

  -- A server that starts on a table that holds the log, with events in it, of an engine that calls
  -- reach does not panic, if the database answers and, as serde_json, does what it documents. Its
  -- table is the given one. Its engine has the markets of the start, the state store, the log, the
  -- next number and the index of the other engine, and an idempotency table that finds the same
  -- duplicates, with the same sequence number, id and hash; and the books that a replay of the log
  -- builds. Nothing relates these to the books of the other engine, nor the status in the replies to
  -- duplicates.
  pub start-SameRecords :
      (x : Crypto) (codec : IsCodec json) (sql : IsTable db) (e : Engine) (table : db.Table)
      (admin_key : Str)
      → IsReachable x e
      → e.sequencer.log ≢ []
      → Holds json db codec sql table e.sequencer.log
      → (s : SharedState json db) × (start (some table) none admin_key ≡ some s)
        × (s.pg ≡ some table)
        × SameRecords first_engine e s.engine
  start-SameRecords x codec sql e table admin_key run some_ held =
      let loaded = load_all_events-Holds json db codec sql table e.sequencer.log held in
      let (good, recovers) = restore-SameRecords x first_engine e run some_ in
      let engine_same : restored_engine (some table) none
          ≡ some (restore_from_events first_engine e.sequencer.log).1 =
        restored table e.sequencer.log some_ loaded good in
      (
        new_state (restore_from_events first_engine e.sequencer.log).1
            (Risk.with_clock default_risk_config) (some table) admin_key,
        (unfold start in rw (engine_same, start) refl),
        (unfold new_state in refl),
        (unfold new_state in recovers),
      )
