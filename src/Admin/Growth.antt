-- ===== src/Admin/Growth.antt =====
-- The administrative operations only append to the log, and nothing when they are refused
-- (src/ops/admin.rs).
use rust_matching_engine.Prelude.{ℕ, inl, inr, Option-cases, List, [], ◌∷◌, Result, ok, err}
use rust_matching_engine.Domain.Market.{Str, MarketConfig, MarketStatus, active, paused, settled}
use rust_matching_engine.Domain.Order.{OrderId, OrderHash}
use rust_matching_engine.Events.{Event, order_cancelled, admin_force}
use rust_matching_engine.Sequencer.{Sequencer}
use rust_matching_engine.Sequencer.Log.{IsNumbered}
use rust_matching_engine.Engine.{Engine, Inputs, append, add_market}
use rust_matching_engine.Engine.Growth.{Grows, same-Grows, append_event-Grows}
use rust_matching_engine.Admin.{
  AdminError, find_market, set_status, pause_from, pause_market, resume_from, resume_market,
  open_orders, cancel_each, cancel_all_orders,
}

-- What an administrative operation does: it is refused and changes nothing, or it appends.
pub data IsOrderly (e : Engine) : Result AdminError ℕ × Engine → Type 0 where
  refused : (r : AdminError) → IsOrderly e (err r, e)
  done : (n : ℕ) (e' : Engine) → Grows e.sequencer e'.sequencer → IsOrderly e (ok n, e')

set_status-Grows :
    (i : Inputs) (e : Engine) (m : MarketConfig) (status : MarketStatus) (ev : Event)
    → IsNumbered e.sequencer
    → Grows e.sequencer (set_status i e m status ev).sequencer
unfolding set_status append add_market
set_status-Grows i e m status ev n =
    append_event-Grows e.sequencer e.sequencer _ ev (same-Grows e.sequencer n)

pause_from-IsOrderly :
    (i : Inputs) (e : Engine) (market_id triggered_by : Str) (m : MarketConfig) (s : MarketStatus)
    → IsNumbered e.sequencer
    → IsOrderly e (pause_from i e market_id triggered_by m s)
unfolding pause_from
pause_from-IsOrderly i e market_id triggered_by m paused n = refused _
pause_from-IsOrderly i e market_id triggered_by m settled n = refused _
pause_from-IsOrderly i e market_id triggered_by m active n =
    done _ _ (set_status-Grows i e m paused _ n)

pub pause_market-IsOrderly :
    (i : Inputs) (e : Engine) (market_id triggered_by : Str)
    → IsNumbered e.sequencer
    → IsOrderly e (pause_market i e market_id triggered_by)
pause_market-IsOrderly i e market_id triggered_by n =
    elim (Option-cases (find_market e.markets market_id)) [
      | inl missing ↦ unfold pause_market in rw (missing, pause_market) (refused _)
      | inr (m, found) ↦
          unfold pause_market in
          rw (found, pause_market) (pause_from-IsOrderly i e market_id triggered_by m m.status n)
    ]

resume_from-IsOrderly :
    (i : Inputs) (e : Engine) (market_id triggered_by : Str) (m : MarketConfig) (s : MarketStatus)
    → IsNumbered e.sequencer
    → IsOrderly e (resume_from i e market_id triggered_by m s)
unfolding resume_from
resume_from-IsOrderly i e market_id triggered_by m active n = refused _
resume_from-IsOrderly i e market_id triggered_by m settled n = refused _
resume_from-IsOrderly i e market_id triggered_by m paused n =
    done _ _ (set_status-Grows i e m active _ n)

pub resume_market-IsOrderly :
    (i : Inputs) (e : Engine) (market_id triggered_by : Str)
    → IsNumbered e.sequencer
    → IsOrderly e (resume_market i e market_id triggered_by)
resume_market-IsOrderly i e market_id triggered_by n =
    elim (Option-cases (find_market e.markets market_id)) [
      | inl missing ↦ unfold resume_market in rw (missing, resume_market) (refused _)
      | inr (m, found) ↦
          unfold resume_market in
          rw (found, resume_market) (resume_from-IsOrderly i e market_id triggered_by m m.status n)
    ]

cancel_each-Grows :
    (i : Inputs) (orders : List (OrderId × OrderHash)) (q : Sequencer) (e : Engine)
    → Grows q e.sequencer
    → Grows q (cancel_each i orders e).sequencer
unfolding cancel_each append
cancel_each-Grows i [] q e g = g
cancel_each-Grows i ((id, hash) ∷ orders) q e g =
    cancel_each-Grows i orders q _
      (append_event-Grows q e.sequencer _ (order_cancelled id hash admin_force) g)

pub cancel_all_orders-IsOrderly :
    (i : Inputs) (e : Engine) (market_id : Str)
    → IsNumbered e.sequencer
    → IsOrderly e (cancel_all_orders i e market_id)
cancel_all_orders-IsOrderly i e market_id n =
    elim (Option-cases (find_market e.markets market_id)) [
      | inl missing ↦ unfold cancel_all_orders in rw (missing, cancel_all_orders) (refused _)
      | inr (m, found) ↦
          unfold cancel_all_orders in
          rw (found, cancel_all_orders)
            (done _ _ (
              cancel_each-Grows i (open_orders market_id e.sequencer.log) e.sequencer e
                (same-Grows e.sequencer n)))
    ]
