-- ===== src/Replay/Recovery.antt =====
-- Replaying the log of an engine gives back its state store (src/replay/mod.rs and
-- src/engine/mod.rs).
use rust_matching_engine.Prelude.{
  ℕ, ◌<◌, ◌≡◌, refl, inl, some, List, [], u64_mod, Result, ok, length,
}
use rust_matching_engine.HashMap.{HashMap, bytes_key, bytes_eq}
use rust_matching_engine.HashMap
use rust_matching_engine.Domain.Market.{Str, MarketConfig}
use rust_matching_engine.Domain.Order.{OrderId, SignedOrder, Crypto}
use rust_matching_engine.Events.{
  Event, order_accepted, order_rejected, fill, order_cancelled, market_paused, market_resumed,
}
use rust_matching_engine.Sequencer.{Sequencer, append_event, register_accepted}
use rust_matching_engine.StateStore.{StateStore}
use rust_matching_engine.Engine.{
  Engine, EngineError, OrderResult, Inputs, CancelError, CancelResult, process_order,
  process_cancel, add_market, with_clock,
}
use rust_matching_engine.Engine.Validity.{IsValid}
use rust_matching_engine.Replay.Tracks.{
  IsTracked, append-IsTracked, accepted-IsTracked, fill-IsTracked, cancelled-IsTracked,
}
use rust_matching_engine.Replay.{
  ReplayResult, replay, replay_events, start, build_books, sort_by_created, open_values,
  apply_event,
}
use rust_matching_engine.Engine.Trace.{FollowsLog, IsStatus, process_order-At, process_cancel-At}

-- The log of the engine replays to its state store, and its index names only orders of the log.
pub record IsRecorded (e : Engine) : Type 0 where
  pub tracked : IsTracked e.sequencer e.state e.order_market_index

-- The idempotency table plays no part in a replay.
registered :
    (q : Sequencer) (s : StateStore) (index : HashMap OrderId Str) (trader client : Str) (n : ℕ)
    (id hash : List ℕ) (at : ℕ)
    → IsTracked q s index
    → IsTracked (register_accepted q trader client n id hash at) s index
unfolding register_accepted
registered q s index trader client n id hash at t = record {
  working = t.working;
  replays = t.replays;
  same_state = t.same_state;
  follows = t.follows;
  knows = t.knows;
}

-- The replay passes over a change of status.
status-IsTracked :
    (q : Sequencer) (s : StateStore) (index : HashMap OrderId Str) (stamp : ℕ) (ev : Event)
    → IsStatus ev
    → IsTracked q s index
    → IsTracked (append_event q stamp ev) s index
unfolding IsStatus
status-IsTracked q s index stamp (market_paused m by) _ t =
    append-IsTracked q s s index index stamp (market_paused m by) t
      (record t.working { last_seq_id = q.next_seq_id }) (unfold apply_event in refl) refl
      t.same_state t.knows
status-IsTracked q s index stamp (market_resumed m by) _ t =
    append-IsTracked q s s index index stamp (market_resumed m by) t
      (record t.working { last_seq_id = q.next_seq_id }) (unfold apply_event in refl) refl
      t.same_state t.knows
status-IsTracked q s index stamp (order_accepted _) k t = absurd k
status-IsTracked q s index stamp (order_rejected _ _ _) k t = absurd k
status-IsTracked q s index stamp (fill _) k t = absurd k
status-IsTracked q s index stamp (order_cancelled _ _ _) k t = absurd k

pub IsTracked-FollowsLog : FollowsLog IsTracked
IsTracked-FollowsLog = record {
  accept = λ q s s' index stamp now o numbered fresh t.
      registered _ s' _ o.trader_id o.client_order_id o.created_sequence o.order_id o.order_hash now
        (accepted-IsTracked q s s' index stamp o t fresh);
  fill = λ q s index stamp f taker maker t. fill-IsTracked q s index stamp f t taker maker;
  cancel = λ q s index stamp id hash reason known t.
      cancelled-IsTracked q s index stamp id hash reason t known;
  status = λ q s index stamp ev kind t. status-IsTracked q s index stamp ev kind t;
}

-- A submission that returns leaves an engine whose log replays to its state store, if the engine was
-- valid and its log did so before.
pub process_order-IsRecorded :
    (x : Crypto) (i : Inputs) (s : SignedOrder) (e e' : Engine) (r : Result EngineError OrderResult)
    → IsValid e
    → IsRecorded e
    → s.size_lots < u64_mod
    → process_order x i s e ≡ some (r, e')
    → IsRecorded e'
process_order-IsRecorded x i s e e' r v rec in_range h = record {
  tracked = process_order-At IsTracked IsTracked-FollowsLog x i s e e' r v rec.tracked in_range h;
}

-- A cancel that returns leaves an engine whose log replays to its state store, if its log did so
-- before.
pub process_cancel-IsRecorded :
    (i : Inputs) (order_id : OrderId) (trader_id : Str) (e e' : Engine)
    (r : Result CancelError CancelResult)
    → IsRecorded e
    → process_cancel i order_id trader_id e ≡ some (r, e')
    → IsRecorded e'
process_cancel-IsRecorded i order_id trader_id e e' r rec h = record {
  tracked =
      process_cancel-At IsTracked IsTracked-FollowsLog i order_id trader_id e e' r rec.tracked h;
}

-- Registering a market keeps the log replayable to the state store.
pub add_market-IsRecorded :
    (e : Engine) (c : MarketConfig) → IsRecorded e → IsRecorded (add_market e c)
unfolding add_market
add_market-IsRecorded e c r = record { tracked = r.tracked }

-- The log of a new engine replays to its state store.
pub with_clock-IsRecorded : IsRecorded with_clock
unfolding with_clock replay_events start HashMap.get
with_clock-IsRecorded = record {
  tracked = record {
    working = start;
    replays = refl;
    same_state = refl;
    follows = inl refl;
    knows = λ id h. absurd (h refl);
  };
}

-- In an engine whose log is recorded, the replay of its log succeeds and gives its state store.
pub replay-rebuilds :
    (e : Engine)
    → IsRecorded e
    → (r : ReplayResult) × (replay e.sequencer.log ≡ ok r) × (r.state ≡ e.state)
unfolding replay
replay-rebuilds e rec =
    let w = rec.tracked.working in
    (
      record {
        books = build_books (sort_by_created (open_values w.orders)) [];
        state = w.state;
        last_seq_id = w.last_seq_id;
        event_count = length e.sequencer.log;
      },
      rw (rec.tracked.replays, replay) refl,
      rec.tracked.same_state,
    )
