-- ===== src/Restore.antt =====
-- Restoring an engine from a persisted log (`restore_from_events` of src/engine/mod.rs).
pub mod Follows
pub mod Refines
pub mod Missing
use rust_matching_engine.Prelude.{ℕ, Option, none, some, List, [], ◌∷◌, add64, Result, ok, err}
use rust_matching_engine.HashMap.{HashMap, bytes_key}
use rust_matching_engine.HashMap
use rust_matching_engine.Domain.Market.{Str}
use rust_matching_engine.Domain.Order.{OrderId}
use rust_matching_engine.Events.{Event, SequencedEvent, order_accepted}
use rust_matching_engine.Sequencer
use rust_matching_engine.Engine.{Engine}
use rust_matching_engine.Replay.{ReplayError, replay}

-- The entry of one event, in the loop that rebuilds the index.
unfoldable pub index_entry : HashMap OrderId Str → Event → HashMap OrderId Str
index_entry index (order_accepted o) = HashMap.insert index o.order_id o.market_id
index_entry index _ = index

unfoldable pub restore_index : HashMap OrderId Str → List SequencedEvent → HashMap OrderId Str
unfolding index_entry
restore_index index [] = index
restore_index index (se ∷ log) = restore_index (index_entry index se.event) log

-- `events.last().map(|e| e.seq_id + 1)`, for the events after a first one.
unfoldable pub next_after : SequencedEvent → List SequencedEvent → ℕ
next_after se [] = add64 se.seq_id 1
next_after se (se' ∷ log) = next_after se' log

unfoldable pub restore_from_events :
    Engine → List SequencedEvent → Result ReplayError (Unit {0}) × Engine
unfolding restore_index next_after
restore_from_events e [] = (ok tt, e)
restore_from_events e (se ∷ log) = elim (replay (se ∷ log)) [
  | err r ↦ (err r, e)
  | ok result ↦ (
    ok tt,
    record e {
      books = result.books;
      state = result.state;
      order_market_index = restore_index [] (se ∷ log);
      sequencer = Sequencer.resume (next_after se log) (se ∷ log);
    },
  )
]
