-- ===== src/Admin/Trace.antt =====
-- What follows the log is kept by the administrative operations (src/ops/admin.rs).
use rust_matching_engine.Prelude.{
  ℕ, ◌≡◌, ◌≢◌, refl, subst, inl, inr, none, Option-cases, Bool-cases, List, [], ◌∷◌, All, not,
  decide, ◌&&◌,
}
use rust_matching_engine.HashMap.{HashMap, bytes_eq, bytes_key}
use rust_matching_engine.HashMap
use rust_matching_engine.Domain.Market.{Str, MarketConfig, MarketStatus, active, paused, settled}
use rust_matching_engine.Domain.Order.{Order, OrderId, OrderHash, is_closed}
use rust_matching_engine.Events.{
  Event, SequencedEvent, order_accepted, order_rejected, fill, order_cancelled, market_paused,
  market_resumed, admin_force,
}
use rust_matching_engine.Sequencer.{Sequencer}
use rust_matching_engine.StateStore.{StateStore}
use rust_matching_engine.Engine.{Engine, Inputs, append, add_market}
use rust_matching_engine.Engine.Validity.{IsValid, SameMarkets-IsValid, add_market-IsValid}
use rust_matching_engine.Engine.Trace.{FollowsLog, IsStatus}
use rust_matching_engine.Restore.{index_entry, restore_index}
use rust_matching_engine.Admin.{
  find_market, set_status, pause_from, pause_market, resume_from, resume_market, open_orders,
  cancel_each, cancel_all_orders,
}

-- What holds of an engine, and of it after a change of status, holds after a pause and a resume.
module _ (Q : Engine → Type 0) (i : Inputs) (e : Engine) (here : Q e)
    (change : (m : MarketConfig) (s : MarketStatus) (ev : Event)
      → IsStatus ev
      → Q (set_status i e m s ev))
    (market_id triggered_by : Str) where
  pause_from-keeps :
      (m : MarketConfig) (s : MarketStatus) → Q (pause_from i e market_id triggered_by m s).1
  unfolding pause_from
  pause_from-keeps m paused = here
  pause_from-keeps m settled = here
  pause_from-keeps m active =
      change m paused (market_paused market_id triggered_by) (unfold IsStatus in tt)

  pub pause_market-keeps : Q (pause_market i e market_id triggered_by).1
  pause_market-keeps = elim (Option-cases (find_market e.markets market_id)) [
    | inl missing ↦ unfold pause_market in rw (missing, pause_market) here
    | inr (m, found) ↦ unfold pause_market in rw (found, pause_market) (pause_from-keeps m m.status)
  ]

  resume_from-keeps :
      (m : MarketConfig) (s : MarketStatus) → Q (resume_from i e market_id triggered_by m s).1
  unfolding resume_from
  resume_from-keeps m active = here
  resume_from-keeps m settled = here
  resume_from-keeps m paused =
      change m active (market_resumed market_id triggered_by) (unfold IsStatus in tt)

  pub resume_market-keeps : Q (resume_market i e market_id triggered_by).1
  resume_market-keeps = elim (Option-cases (find_market e.markets market_id)) [
    | inl missing ↦ unfold resume_market in rw (missing, resume_market) here
    | inr (m, found) ↦
        unfold resume_market in rw (found, resume_market) (resume_from-keeps m m.status)
  ]

pub set_status-IsValid :
    (i : Inputs) (e : Engine) (m : MarketConfig) (s : MarketStatus) (ev : Event)
    → IsValid e
    → IsValid (set_status i e m s ev)
unfolding set_status
set_status-IsValid i e m s ev v =
    SameMarkets-IsValid (add_market e (record m { status = s })) _
      (record { books = refl; markets = refl; index = refl })
      (add_market-IsValid e (record m { status = s }) v)

-- The index keeps the orders that it knows.
entry-known :
    (index : HashMap OrderId Str) (id : OrderId) (ev : Event)
    → HashMap.get index id ≢ none
    → HashMap.get (index_entry index ev) id ≢ none
unfolding index_entry
entry-known index id (order_accepted o) h =
    λ k. h (HashMap.missing_before index o.order_id id o.market_id k)
entry-known index id (order_rejected _ _ _) h = h
entry-known index id (fill _) h = h
entry-known index id (order_cancelled _ _ _) h = h
entry-known index id (market_paused _ _) h = h
entry-known index id (market_resumed _ _) h = h

known_before :
    (index : HashMap OrderId Str) (log : List SequencedEvent) (id : OrderId)
    → HashMap.get index id ≢ none
    → HashMap.get (restore_index index log) id ≢ none
unfolding restore_index
known_before index [] id h = h
known_before index (se ∷ log) id h =
    known_before (index_entry index se.event) log id (entry-known index id se.event h)

abbrev Known : HashMap OrderId Str → List (OrderId × OrderHash) → Type 0
Known index orders = All (λ (p : OrderId × OrderHash). HashMap.get index p.0 ≢ none) orders

accepted-Known :
    (market_id : Str) (index : HashMap OrderId Str) (n stamp : ℕ) (o : Order)
    (log : List SequencedEvent)
    → Known (restore_index (index_entry index (order_accepted o)) log) (open_orders market_id log)
    → Known (restore_index (index_entry index (order_accepted o)) log) (
        open_orders market_id
          (record { seq_id = n; timestamp_ms = stamp; event = order_accepted o } ∷ log))
unfolding open_orders
accepted-Known market_id index n stamp o log rest =
    elim (Bool-cases (decide (bytes_eq o.market_id market_id) && not (is_closed o))) [
      | inr closed ↦ rw closed rest
      | inl open_ ↦ rw open_ (
        known_before (index_entry index (order_accepted o)) log o.order_id (
            unfold index_entry in
            λ k. cc (k, HashMap.get-insert_self index o.order_id o.market_id)),
        rest,
      )
    ]

event-Known :
    (market_id : Str) (index : HashMap OrderId Str) (n stamp : ℕ) (ev : Event)
    (log : List SequencedEvent)
    → Known (restore_index (index_entry index ev) log) (open_orders market_id log)
    → Known
        (restore_index (index_entry index ev) log)
        (open_orders market_id (record { seq_id = n; timestamp_ms = stamp; event = ev } ∷ log))
unfolding open_orders
event-Known market_id index n stamp (order_accepted o) log rest =
    accepted-Known market_id index n stamp o log rest
event-Known market_id index n stamp (order_rejected _ _ _) log rest = rest
event-Known market_id index n stamp (fill _) log rest = rest
event-Known market_id index n stamp (order_cancelled _ _ _) log rest = rest
event-Known market_id index n stamp (market_paused _ _) log rest = rest
event-Known market_id index n stamp (market_resumed _ _) log rest = rest

-- The orders that a log accepts are in the index that is rebuilt from it.
open_orders-Known :
    (market_id : Str) (index : HashMap OrderId Str) (log : List SequencedEvent)
    → Known (restore_index index log) (open_orders market_id log)
unfolding restore_index
open_orders-Known market_id index [] = unfold open_orders in tt
open_orders-Known market_id index (se ∷ log) =
    event-Known market_id index se.seq_id se.timestamp_ms se.event log
      (open_orders-Known market_id (index_entry index se.event) log)

module _ (P : Sequencer → StateStore → HashMap OrderId Str → Type 0) (law : FollowsLog P) where
  abbrev At : Engine → Type 0
  At e = P e.sequencer e.state e.order_market_index

  pub set_status-At :
      (i : Inputs) (e : Engine) (m : MarketConfig) (s : MarketStatus) (ev : Event)
      → At e
      → IsStatus ev
      → At (set_status i e m s ev)
  unfolding set_status append add_market
  set_status-At i e m s ev h kind = law.status e.sequencer e.state e.order_market_index _ ev kind h

  cancel_each-At :
      (i : Inputs) (orders : List (OrderId × OrderHash)) (e : Engine)
      → At e
      → Known e.order_market_index orders
      → At (cancel_each i orders e)
  unfolding cancel_each append
  cancel_each-At i [] e h _ = h
  cancel_each-At i ((id, hash) ∷ orders) e h (known, rest) =
      cancel_each-At i orders _
        (law.cancel e.sequencer e.state e.order_market_index _ id hash admin_force known h) rest

  pub cancel_all_orders-At :
      (i : Inputs) (e : Engine) (market_id : Str)
      → restore_index [] e.sequencer.log ≡ e.order_market_index
      → At e
      → At (cancel_all_orders i e market_id).1
  cancel_all_orders-At i e market_id indexed h =
      elim (Option-cases (find_market e.markets market_id)) [
        | inl missing ↦ unfold cancel_all_orders in rw (missing, cancel_all_orders) h
        | inr (m, found) ↦
            unfold cancel_all_orders in
            rw (found, cancel_all_orders)
              (cancel_each-At i (open_orders market_id e.sequencer.log) e h (
                subst
                  (λ (index : HashMap OrderId Str).
                    Known index (open_orders market_id e.sequencer.log))
                  indexed (open_orders-Known market_id [] e.sequencer.log)))
      ]
