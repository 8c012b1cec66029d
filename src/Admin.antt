-- ===== src/Admin.antt =====
-- Administrative operations on the markets of an engine (src/ops/admin.rs).
pub mod Pause
pub mod Halts
pub mod CancelAll
pub mod Growth
pub mod Trace
use rust_matching_engine.Prelude.{
  ℕ, ◌&&◌, Option, none, some, List, [], ◌∷◌, ite, if◌then◌else◌, Bool, true, false, not, length,
  decide, Result, ok, err,
}
use rust_matching_engine.HashMap.{HashMap, bytes_eq, bytes_key}
use rust_matching_engine.Domain.Market.{Str, MarketConfig, MarketStatus, active, paused, settled}
use rust_matching_engine.Domain.Order.{OrderId, OrderHash, is_closed}
use rust_matching_engine.Events.{
  Event, SequencedEvent, market_paused, market_resumed, order_accepted, order_cancelled,
  admin_force,
}
use rust_matching_engine.Sequencer.{peek_next_seq_id}
use rust_matching_engine.StateStore.{cancel_order}
use rust_matching_engine.Engine.{Engine, Inputs, add_market, append}

pub data AdminError : Type 0 where
  market_not_found : Str → AdminError
  already_in_state : Str → MarketStatus → AdminError
  is_settled : Str → AdminError

-- `list_markets().into_iter().find(|m| m.id.0 == market_id)`. The list is sorted by id; each id
-- is the key of its own entry, so that the order of the list does not matter to the search.
unfoldable pub find_market : HashMap Str MarketConfig → Str → Option MarketConfig
find_market [] market_id = none
find_market ((k, m) ∷ markets) market_id =
    ite (bytes_eq m.id market_id) (some m) (find_market markets market_id)

-- The update of the status and the event, once a change of status is allowed.
unfoldable pub set_status : Inputs → Engine → MarketConfig → MarketStatus → Event → Engine
unfolding append
set_status i e m status event =
    let e' = add_market e (record m { status = status }) in
    record e' { sequencer = append i e'.sequencer event }

unfoldable pub pause_from :
    Inputs → Engine → Str → Str → MarketConfig → MarketStatus → Result AdminError ℕ × Engine
unfolding set_status
pause_from i e market_id triggered_by m paused = (err (already_in_state market_id paused), e)
pause_from i e market_id triggered_by m settled = (err (is_settled market_id), e)
pause_from i e market_id triggered_by m active = (
  ok (peek_next_seq_id e.sequencer),
  set_status i e m paused (market_paused market_id triggered_by),
)

unfoldable pub pause_market : Inputs → Engine → Str → Str → Result AdminError ℕ × Engine
unfolding find_market pause_from
pause_market i e market_id triggered_by = elim (find_market e.markets market_id) [
  | none ↦ (err (market_not_found market_id), e)
  | some m ↦ pause_from i e market_id triggered_by m m.status
]

unfoldable pub resume_from :
    Inputs → Engine → Str → Str → MarketConfig → MarketStatus → Result AdminError ℕ × Engine
unfolding set_status
resume_from i e market_id triggered_by m active = (err (already_in_state market_id active), e)
resume_from i e market_id triggered_by m settled = (err (is_settled market_id), e)
resume_from i e market_id triggered_by m paused = (
  ok (peek_next_seq_id e.sequencer),
  set_status i e m active (market_resumed market_id triggered_by),
)

unfoldable pub resume_market : Inputs → Engine → Str → Str → Result AdminError ℕ × Engine
unfolding find_market resume_from
resume_market i e market_id triggered_by = elim (find_market e.markets market_id) [
  | none ↦ (err (market_not_found market_id), e)
  | some m ↦ resume_from i e market_id triggered_by m m.status
]

-- The `filter_map` over the log: the orders of the market whose accept event has them open.
unfoldable pub open_orders : Str → List SequencedEvent → List (OrderId × OrderHash)
open_orders market_id [] = []
open_orders market_id (se ∷ log) =
    let rest = open_orders market_id log in
    elim se.event [
      | order_accepted o ↦
          if decide (bytes_eq o.market_id market_id) && not (is_closed o)
          then (o.order_id, o.order_hash) ∷ rest
          else rest
      | _ ↦ rest
    ]

unfoldable pub cancel_each : Inputs → List (OrderId × OrderHash) → Engine → Engine
unfolding append
cancel_each i [] e = e
cancel_each i ((order_id, order_hash) ∷ orders) e = cancel_each i orders (record e {
  state = cancel_order e.state order_hash;
  sequencer = append i e.sequencer (order_cancelled order_id order_hash admin_force);
})

unfoldable pub cancel_all_orders : Inputs → Engine → Str → Result AdminError ℕ × Engine
unfolding find_market open_orders cancel_each
cancel_all_orders i e market_id = elim (find_market e.markets market_id) [
  | none ↦ (err (market_not_found market_id), e)
  | some _ ↦
      let orders = open_orders market_id e.sequencer.log in
      (ok (length orders), cancel_each i orders e)
]
