-- ===== src/Sequencer.antt =====
-- The sequencer: sequence numbers, the event log and the idempotency table
-- (src/sequencer/mod.rs).
pub mod Log
pub mod Restart
use rust_matching_engine.Prelude.{
  ℕ, Option, List, [], ◌∷◌, ◌++◌, add64, length, ◌==◌, Bool, true, false,
}
use rust_matching_engine.HashMap.{HashMap, Bytes, pair_key}
use rust_matching_engine.HashMap
use rust_matching_engine.Domain.Market.{Str}
use rust_matching_engine.Domain.Order.{Order, OrderId, OrderHash}
use rust_matching_engine.Events.{
  Event, SequencedEvent, order_accepted, order_rejected, fill, order_cancelled, market_paused,
  market_resumed,
}

-- (trader_id, client_order_id)
abbrev pub IdempotencyKey : Type 0
IdempotencyKey = Str × Str

pub record IdempotencyRecord : Type 0 where
  pub original_seq_id : ℕ
  pub order_id : OrderId
  pub order_hash : OrderHash
  pub accepted_at_ms : ℕ

pub record Sequencer : Type 0 where
  pub next_seq_id : ℕ
  pub log : List SequencedEvent
  pub idempotency : HashMap IdempotencyKey IdempotencyRecord

unfoldable pub new : Sequencer
new = record { next_seq_id = 1; log = []; idempotency = [] }

-- The entry of one event of the log, in the loop of `resume`.
unfoldable pub restore_entry :
    HashMap IdempotencyKey IdempotencyRecord
    → SequencedEvent
    → Event
    → HashMap IdempotencyKey IdempotencyRecord
restore_entry m ev (order_accepted order) =
    HashMap.insert m (order.trader_id, order.client_order_id)
      (record {
        original_seq_id = ev.seq_id;
        order_id = order.order_id;
        order_hash = order.order_hash;
        accepted_at_ms = ev.timestamp_ms;
      })
restore_entry m ev _ = m

unfoldable pub restore_table :
    HashMap IdempotencyKey IdempotencyRecord
    → List SequencedEvent
    → HashMap IdempotencyKey IdempotencyRecord
unfolding restore_entry
restore_table m [] = m
restore_table m (ev ∷ log) = restore_table (restore_entry m ev ev.event) log

unfoldable pub resume : ℕ → List SequencedEvent → Sequencer
unfolding restore_table
resume resume_from_seq_id log = record {
  next_seq_id = resume_from_seq_id;
  log = log;
  idempotency = restore_table [] log;
}

unfoldable pub peek_next_seq_id : Sequencer → ℕ
peek_next_seq_id s = s.next_seq_id

-- `stamp` is what `current_time_ms()` returns at the append.
unfoldable pub append_event : Sequencer → ℕ → Event → Sequencer
append_event s stamp event = record s {
  next_seq_id = add64 s.next_seq_id 1;
  log = s.log ++ record { seq_id = s.next_seq_id; timestamp_ms = stamp; event = event } ∷ [];
}

unfoldable pub idempotency_check : Sequencer → Str → Str → Option IdempotencyRecord
idempotency_check s trader_id client_order_id =
    HashMap.get s.idempotency (trader_id, client_order_id)

unfoldable pub register_accepted : Sequencer → Str → Str → ℕ → OrderId → OrderHash → ℕ → Sequencer
register_accepted s trader_id client_order_id seq_id order_id order_hash accepted_at_ms = record s {
  idempotency =
      HashMap.insert s.idempotency (trader_id, client_order_id)
        (record {
          original_seq_id = seq_id;
          order_id = order_id;
          order_hash = order_hash;
          accepted_at_ms = accepted_at_ms;
        });
}

unfoldable pub len : Sequencer → ℕ
len s = length s.log

unfoldable pub is_empty : Sequencer → Bool
is_empty s = length s.log == 0
