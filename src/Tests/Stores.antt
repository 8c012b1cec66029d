-- ===== src/Tests/Stores.antt =====
-- The theorems on checksums, restores, snapshots and the event store, at the run of the sample.
use rust_matching_engine.Prelude.{
  ℕ, zero, suc, ◌+◌, ◌^◌, ◌<◌, ◌≤◌, ◌≡◌, ◌≢◌, refl, inl, inr, none, some, List, [], ◌∷◌, ◌++◌, true,
  length, All, Has, Result, ok, err, arith, u64_mod, add64, sub64, for_each, ℕ_discrete,
}
use rust_matching_engine.HashMap.{HashMap, Bytes, bytes_eq, pair_eq, bytes_key, pair_key}
use rust_matching_engine.HashMap
use rust_matching_engine.BTreeMap
use rust_matching_engine.Domain.Market.{
  Str, is_active, is_active_status, is_multiple_of, validate_price, validate_size,
}
use rust_matching_engine.Domain.Order.{
  SignedOrder, validate_fields, verify_signature, remaining_size_lots, is_closed,
}
use rust_matching_engine.Events.{SequencedEvent, market_paused}
use rust_matching_engine.Sequencer.{new, idempotency_check, register_accepted, append_event}
use rust_matching_engine.Sequencer
use rust_matching_engine.StateStore.{check_and_update_nonce}
use rust_matching_engine.StateStore
use rust_matching_engine.Engine.Orderbook.{bid_prices_desc, ask_prices_asc, orders_at_price}
use rust_matching_engine.Engine.Orderbook
use rust_matching_engine.Engine.Matching.{match_order}
use rust_matching_engine.Engine.Residual.{insert_residual}
use rust_matching_engine.Engine.{
  Engine, with_clock, add_market, validate, process_order, accept, admit, settle,
}
use rust_matching_engine.Run.{restore-SameRecords}
use rust_matching_engine.Replay.{ReplayResult, seq_id_gap, replay}
use rust_matching_engine.StateStore.{StateStore}
use rust_matching_engine.StateStore.Checksum.{checksum}
use rust_matching_engine.StateStore.Checksum.Sorting.{IsMap}
use rust_matching_engine.StateStore.Checksum.Canonical.{HasMaps, Agrees, checksum-canonical}
use rust_matching_engine.Restore.{restore_from_events}
use rust_matching_engine.Restore.Refines.{SameRecords}
use rust_matching_engine.Restore.Missing.{Avoids, restore-panics}
use rust_matching_engine.Snapshot.{
  Snapshot, SnapshotError, load_snapshot, create_snapshot, last_seq, new_snapshot,
  checksum_mismatch, snapshot_schema_version,
}
use rust_matching_engine.Snapshot.RoundTrip.{load_snapshot-detects, snapshot-recovers}
use rust_matching_engine.Snapshot.Names.{
  snapshot_name, json_stem, seq_of_stem, find_latest_snapshot,
}
use rust_matching_engine.Snapshot.Names.Latest.{find_latest_greatest, find_latest_blocked}
use rust_matching_engine.Pg.{Row, load_all_events, decode_rows, event_type_tag}
use rust_matching_engine.Pg.Holds.{Holds}
use rust_matching_engine.Api.{SharedState, persist_since}
use rust_matching_engine.Api.Persist.{persist-SameRecords, skipped_persist-blocks}
use rust_matching_engine.Startup.{first_engine, start, start-SameRecords}
use rust_matching_engine.Risk
use rust_matching_engine.Risk.{default_risk_config}
use rust_matching_engine.Tests.Sample.{
  alice, bob, market, config, crypto, inputs, engine, ask, after_bid,
}
use rust_matching_engine.Tests.Calls.{after_bid-IsReachable}
use rust_matching_engine.Tests.Parameters.{json, db, codec, sql, files, reads}

-- Two stores that answer alike and hold their entries in different orders.
abbrev one_store : StateStore
one_store = record StateStore.new { nonces = (alice, 1) ∷ (bob, 2) ∷ []; balances = [] }

abbrev other_store : StateStore
other_store = record StateStore.new { nonces = (bob, 2) ∷ (alice, 1) ∷ []; balances = [] }

abbrev log : List SequencedEvent
log = after_bid.sequencer.log

after_bid-some : log ≢ []
unfolding with_clock add_market Sequencer.new StateStore.new Orderbook.new HashMap.get
    HashMap.insert bytes_eq pair_eq ℕ_discrete process_order validate validate_fields
    verify_signature is_active is_active_status validate_price validate_size is_multiple_of
    idempotency_check check_and_update_nonce accept admit settle mathlib.Core.Bool.decide
    match_order for_each bid_prices_desc ask_prices_asc BTreeMap.keys register_accepted append_event
    insert_residual is_closed remaining_size_lots sub64 Orderbook.insert BTreeMap.insert
    orders_at_price BTreeMap.get add64
after_bid-some h = cc h

restore-SameRecords_example :
    ((restore_from_events engine log).0 ≡ ok tt)
    × SameRecords engine after_bid (restore_from_events engine log).1
restore-SameRecords_example =
    restore-SameRecords crypto engine after_bid after_bid-IsReachable after_bid-some

-- A snapshot of the engine, on an empty disk.
abbrev written : Result SnapshotError Snapshot × files.Disk
written = create_snapshot files crypto 1 market log [] (checksum crypto after_bid.state) []

abbrev snapshot : Snapshot
snapshot = new_snapshot crypto 1 log [] (checksum crypto after_bid.state)

snapshot-written : written ≡ (ok snapshot, (market, snapshot) ∷ [])
unfolding create_snapshot HashMap.insert
snapshot-written = refl

snapshot-recovers_example :
    (r : ReplayResult) × (load_snapshot files crypto market ((market, snapshot) ∷ [])
      ≡ ok (r, [], last_seq 0 log))
    × (r.state ≡ after_bid.state)
snapshot-recovers_example =
    snapshot-recovers files crypto after_bid 1 market [] [] ((market, snapshot) ∷ []) snapshot reads
      after_bid-IsReachable snapshot-written

abbrev old_name : Str
old_name = snapshot_name 7

abbrev new_name : Str
new_name = snapshot_name 12

abbrev names : List Str
names = new_name ∷ old_name ∷ []

find_latest_greatest_example :
    (m : ℕ) × (find_latest_snapshot (some names) ≡ some (snapshot_name m))
    × Has names (snapshot_name m)
    × ((k : ℕ) → k < u64_mod → Has names (snapshot_name k) → k ≤ m)
find_latest_greatest_example =
    find_latest_greatest names 7 (inr (12, omega arith, refl), (inr (7, omega arith, refl), tt))
      (omega arith) (inr (inl refl))

-- "a.json"
abbrev stray : Str
stray = b'a' ∷ b'.' ∷ b'j' ∷ b's' ∷ b'o' ∷ b'n' ∷ []

stray-json : json_stem stray ≡ some (b'a' ∷ [])
unfolding json_stem bytes_eq ℕ_discrete
stray-json = refl

stray-odd : seq_of_stem (b'a' ∷ []) ≡ none
unfolding seq_of_stem
stray-odd = refl

find_latest_blocked_example : find_latest_snapshot (some (old_name ∷ stray ∷ [])) ≡ none
find_latest_blocked_example =
    find_latest_blocked (old_name ∷ stray ∷ []) stray (b'a' ∷ []) (inr (inl refl)) stray-json
      stray-odd

-- The snapshot of an engine with the checksum of another state store.
abbrev spoiled : Snapshot
spoiled = new_snapshot crypto 1 after_bid.sequencer.log [] (checksum crypto StateStore.new)

spoiled-read : files.read_to_string ((market, spoiled) ∷ []) market ≡ ok spoiled
unfolding HashMap.get bytes_eq ℕ_discrete
spoiled-read = refl

spoiled-version : spoiled.schema_version ≡ snapshot_schema_version
unfolding new_snapshot
spoiled-version = refl

spoiled-events : spoiled.events ≡ after_bid.sequencer.log
unfolding new_snapshot
spoiled-events = refl

load_snapshot-detects_example :
    (crypto.hex_encode (checksum crypto after_bid.state) ≡ spoiled.state_checksum
      → (r : ReplayResult) × (load_snapshot files crypto market ((market, spoiled) ∷ [])
          ≡ ok (r, spoiled.markets, spoiled.snapshot_seq))
        × (r.state ≡ after_bid.state))
    × (crypto.hex_encode (checksum crypto after_bid.state) ≢ spoiled.state_checksum
        → load_snapshot files crypto market ((market, spoiled) ∷ [])
          ≡ err (
              checksum_mismatch spoiled.state_checksum
                (crypto.hex_encode (checksum crypto after_bid.state))))
load_snapshot-detects_example =
    load_snapshot-detects files crypto after_bid market ((market, spoiled) ∷ []) spoiled spoiled
      after_bid-IsReachable spoiled-read refl spoiled-version spoiled-events

one_store-HasMaps : HasMaps one_store
one_store-HasMaps = record {
  filled = unfold StateStore.new IsMap in tt;
  cancels = unfold StateStore.new IsMap in tt;
  nonces = unfold IsMap HashMap.get bytes_eq ℕ_discrete in (refl, (refl, tt));
}

other_store-HasMaps : HasMaps other_store
other_store-HasMaps = record {
  filled = unfold StateStore.new IsMap in tt;
  cancels = unfold StateStore.new IsMap in tt;
  nonces = unfold IsMap HashMap.get bytes_eq ℕ_discrete in (refl, (refl, tt));
}

stores-Agrees : Agrees one_store other_store
unfolding HashMap.get
stores-Agrees = record { filled = λ j. refl; cancels = λ j. refl; nonces = λ j. ground arith }

checksum-canonical_example : checksum crypto one_store ≡ checksum crypto other_store
checksum-canonical_example =
    checksum-canonical crypto one_store other_store one_store-HasMaps other_store-HasMaps
      stores-Agrees

-- A server on an empty table.
abbrev server : SharedState json db
server = record {
  engine = after_bid;
  risk = Risk.with_clock default_risk_config;
  pg = some [];
  events = [];
  admin_key = [];
}

empty-Holds : Holds json db codec sql [] []
empty-Holds = record { decoded = unfold decode_rows in refl; numbers = refl }

log_bounded : length log < 2 ^ 63
unfolding with_clock add_market Sequencer.new StateStore.new Orderbook.new HashMap.get
    HashMap.insert bytes_eq pair_eq ℕ_discrete process_order validate validate_fields
    verify_signature is_active is_active_status validate_price validate_size is_multiple_of
    idempotency_check check_and_update_nonce accept admit settle mathlib.Core.Bool.decide
    match_order for_each bid_prices_desc ask_prices_asc BTreeMap.keys register_accepted append_event
    insert_residual is_closed remaining_size_lots sub64 Orderbook.insert BTreeMap.insert
    orders_at_price BTreeMap.get add64
log_bounded = omega arith

persist-SameRecords_example :
    (t' : db.Table) × ((persist_since json db true none 0 server).pg ≡ some t')
    × (load_all_events json db none t' ≡ ok log)
    × ((restore_from_events engine log).0 ≡ ok tt)
    × SameRecords engine after_bid (restore_from_events engine log).1
persist-SameRecords_example =
    persist-SameRecords json db codec sql crypto engine server [] log 0 [] after_bid-IsReachable
      refl after_bid-some log_bounded (omega arith) refl empty-Holds

-- The events of the log.
abbrev event_at : ℕ → List SequencedEvent → SequencedEvent
event_at n [] = record { seq_id = 0; timestamp_ms = 0; event = market_paused [] [] }
event_at zero (se ∷ _) = se
event_at (suc n) (_ ∷ later) = event_at n later

abbrev first : SequencedEvent
first = event_at 0 log

abbrev second : SequencedEvent
second = event_at 1 log

abbrev third : SequencedEvent
third = event_at 2 log

log_events : log ≡ ((first ∷ []) ++ second ∷ []) ++ third ∷ []
unfolding with_clock add_market Sequencer.new StateStore.new Orderbook.new HashMap.get
    HashMap.insert bytes_eq pair_eq ℕ_discrete process_order validate validate_fields
    verify_signature is_active is_active_status validate_price validate_size is_multiple_of
    idempotency_check check_and_update_nonce accept admit settle mathlib.Core.Bool.decide
    match_order for_each bid_prices_desc ask_prices_asc BTreeMap.keys register_accepted append_event
    insert_residual is_closed remaining_size_lots sub64 Orderbook.insert BTreeMap.insert
    orders_at_price BTreeMap.get add64
log_events = refl

abbrev row : SequencedEvent → Row json.Value
row se = record {
  seq_id = se.seq_id;
  timestamp_ms = se.timestamp_ms;
  event_type = event_type_tag se.event;
  payload = inr se;
}

first-Holds : Holds json db codec sql (row first ∷ []) (first ∷ [])
first-Holds = record { decoded = unfold decode_rows in refl; numbers = refl }

abbrev behind : SharedState json db
behind = record server { pg = some (row first ∷ []) }

skipped_persist-blocks_example :
    (t' : db.Table) × ((persist_since json db true none
        (length ((first ∷ []) ++ second ∷ []))
        behind).pg
      ≡ some t')
    × (load_all_events json db none t' ≡ ok ((first ∷ []) ++ third ∷ []))
    × (restore_from_events engine ((first ∷ []) ++ third ∷ [])
        ≡ (err (seq_id_gap (length (first ∷ []) + 1) third.seq_id), engine))
skipped_persist-blocks_example =
    skipped_persist-blocks json db codec sql crypto engine behind first second third [] [] []
      (row first ∷ []) after_bid-IsReachable log_events (omega arith) refl first-Holds

abbrev full_table : db.Table
full_table = row first ∷ row second ∷ row third ∷ []

full-Holds : Holds json db codec sql full_table log
unfolding with_clock add_market Sequencer.new StateStore.new Orderbook.new HashMap.get
    HashMap.insert bytes_eq pair_eq ℕ_discrete process_order validate validate_fields
    verify_signature is_active is_active_status validate_price validate_size is_multiple_of
    idempotency_check check_and_update_nonce accept admit settle mathlib.Core.Bool.decide
    match_order for_each bid_prices_desc ask_prices_asc BTreeMap.keys register_accepted append_event
    insert_residual is_closed remaining_size_lots sub64 Orderbook.insert BTreeMap.insert
    orders_at_price BTreeMap.get add64 decode_rows
full-Holds = record { decoded = refl; numbers = refl }

start-SameRecords_example :
    (s : SharedState json db) × (start json db (some full_table) none [] ≡ some s)
    × (s.pg ≡ some full_table)
    × SameRecords first_engine after_bid s.engine
start-SameRecords_example =
    start-SameRecords json db crypto codec sql after_bid full_table [] after_bid-IsReachable
      after_bid-some full-Holds

-- An engine with a second market, and an order for it.
abbrev other_market : Str
other_market = 17 ∷ []

abbrev two_markets : Engine
two_markets = add_market engine (record config { id = other_market })

abbrev late : SignedOrder
late = record ask { market_id = other_market; client_order_id = 9 ∷ []; nonce = 5 }

abbrev rest : List SequencedEvent
rest = second ∷ third ∷ []

abbrev restored : Engine
restored = (restore_from_events two_markets (first ∷ rest)).1

log-Avoids : All (λ (k : SequencedEvent). Avoids other_market k.event) (first ∷ rest)
unfolding with_clock add_market Sequencer.new StateStore.new Orderbook.new HashMap.get
    HashMap.insert bytes_eq pair_eq ℕ_discrete process_order validate validate_fields
    verify_signature is_active is_active_status validate_price validate_size is_multiple_of
    idempotency_check check_and_update_nonce accept admit settle mathlib.Core.Bool.decide
    match_order for_each bid_prices_desc ask_prices_asc BTreeMap.keys register_accepted append_event
    insert_residual is_closed remaining_size_lots sub64 Orderbook.insert BTreeMap.insert
    orders_at_price BTreeMap.get add64 Avoids
log-Avoids = ((λ h. cc h), ((λ h. cc h), (tt, tt)))

restores : (restore_from_events two_markets (first ∷ rest)).0 ≡ ok tt
unfolding with_clock add_market Sequencer.new StateStore.new Orderbook.new HashMap.get
    HashMap.insert bytes_eq pair_eq ℕ_discrete process_order validate validate_fields
    verify_signature is_active is_active_status validate_price validate_size is_multiple_of
    idempotency_check check_and_update_nonce accept admit settle mathlib.Core.Bool.decide
    match_order for_each bid_prices_desc ask_prices_asc BTreeMap.keys register_accepted append_event
    insert_residual is_closed remaining_size_lots sub64 Orderbook.insert BTreeMap.insert
    orders_at_price BTreeMap.get add64 restore_from_events replay Sequencer.resume
restores = refl

late-valid : validate crypto 1003 restored late ≡ ok tt
unfolding with_clock add_market Sequencer.new StateStore.new Orderbook.new HashMap.get
    HashMap.insert bytes_eq pair_eq ℕ_discrete process_order validate validate_fields
    verify_signature is_active is_active_status validate_price validate_size is_multiple_of
    idempotency_check check_and_update_nonce accept admit settle mathlib.Core.Bool.decide
    match_order for_each bid_prices_desc ask_prices_asc BTreeMap.keys register_accepted append_event
    insert_residual is_closed remaining_size_lots sub64 Orderbook.insert BTreeMap.insert
    orders_at_price BTreeMap.get add64 restore_from_events replay Sequencer.resume
late-valid = refl

late-new : idempotency_check restored.sequencer alice (9 ∷ []) ≡ none
unfolding with_clock add_market Sequencer.new StateStore.new Orderbook.new HashMap.get
    HashMap.insert bytes_eq pair_eq ℕ_discrete process_order validate validate_fields
    verify_signature is_active is_active_status validate_price validate_size is_multiple_of
    idempotency_check check_and_update_nonce accept admit settle mathlib.Core.Bool.decide
    match_order for_each bid_prices_desc ask_prices_asc BTreeMap.keys register_accepted append_event
    insert_residual is_closed remaining_size_lots sub64 Orderbook.insert BTreeMap.insert
    orders_at_price BTreeMap.get add64 restore_from_events replay Sequencer.resume
late-new = refl

abbrev nonce_state : StateStore
nonce_state = record restored.state { nonces = HashMap.insert restored.state.nonces alice 5 }

late-fresh : check_and_update_nonce restored.state alice 5 ≡ ok nonce_state
unfolding with_clock add_market Sequencer.new StateStore.new Orderbook.new HashMap.get
    HashMap.insert bytes_eq pair_eq ℕ_discrete process_order validate validate_fields
    verify_signature is_active is_active_status validate_price validate_size is_multiple_of
    idempotency_check check_and_update_nonce accept admit settle mathlib.Core.Bool.decide
    match_order for_each bid_prices_desc ask_prices_asc BTreeMap.keys register_accepted append_event
    insert_residual is_closed remaining_size_lots sub64 Orderbook.insert BTreeMap.insert
    orders_at_price BTreeMap.get add64 restore_from_events replay Sequencer.resume
    StateStore.apply_fill
late-fresh = refl

restore-panics_example : process_order crypto (inputs 3) late restored ≡ none
restore-panics_example =
    restore-panics crypto (inputs 3) late two_markets first rest nonce_state log-Avoids restores
      late-valid late-new late-fresh
