-- ===== src/Admin/CancelAll.antt =====
-- What cancelling all the orders of a market reaches (src/ops/admin.rs).
use rust_matching_engine.Prelude.{
  ℕ, ◌≡◌, refl, sym, ap, ◌∙◌, inl, inr, Option-cases, List, [], ◌∷◌, ◌++◌, append_assoc, append-nil,
  map, length, true, ite, if_pos, arith, ok, Has,
}
use rust_matching_engine.HashMap.{HashMap, bytes_eq, bytes_key}
use rust_matching_engine.HashMap
use rust_matching_engine.Domain.Market.{Str}
use rust_matching_engine.Domain.Order.{OrderId, OrderHash}
use rust_matching_engine.Events.{Event, SequencedEvent, order_cancelled, admin_force}
use rust_matching_engine.Sequencer.{Sequencer, append_event}
use rust_matching_engine.StateStore.{cancel_order, is_cancelled}
use rust_matching_engine.Engine.{Engine, Inputs, append}
use rust_matching_engine.Engine.Validity.{IsValid, SameMarkets, SameMarkets-IsValid}
use rust_matching_engine.Admin.{find_market, open_orders, cancel_each, cancel_all_orders}

is_cancelled-cancel_order :
    (e : Engine) (hash h : OrderHash)
    → is_cancelled (cancel_order e.state hash) h
      ≡ ite (bytes_eq hash h) true (is_cancelled e.state h)
unfolding is_cancelled cancel_order bytes_eq
is_cancelled-cancel_order e hash h =
    ground (arith, HashMap.get-insert e.state.cancelled hash h true)

abbrev pub event_of : SequencedEvent → Event
event_of se = se.event

-- The cancel of an order by the admin.
abbrev pub forced : OrderId × OrderHash → Event
forced o = order_cancelled o.0 o.1 admin_force

-- What the cancels of a list of orders change: the log and the set of cancelled hashes.
record CancelsList (e e' : Engine) (orders : List (OrderId × OrderHash)) : Type 0 where
  pub same : SameMarkets e e'
  pub marked : (id : OrderId) (h : OrderHash) → Has orders (id, h) → is_cancelled e'.state h ≡ true
  pub kept : (h : OrderHash) → is_cancelled e.state h ≡ true → is_cancelled e'.state h ≡ true
  pub new : List SequencedEvent
  pub log : e'.sequencer.log ≡ e.sequencer.log ++ new
  pub events : map event_of new ≡ map forced orders

-- An event as the sequencer appends it.
abbrev numbered : Inputs → Sequencer → Event → SequencedEvent
numbered i s event = record {
  seq_id = s.next_seq_id;
  timestamp_ms = i.stamp s.next_seq_id;
  event = event;
}

log-append :
    (i : Inputs) (s : Sequencer) (event : Event) (new : List SequencedEvent)
    → (append i s event).log ++ new ≡ s.log ++ numbered i s event ∷ new
unfolding append append_event
log-append i s event new = append_assoc s.log (numbered i s event ∷ []) new

cancel_each-CancelsList :
    (i : Inputs) (orders : List (OrderId × OrderHash)) (e : Engine)
    → CancelsList e (cancel_each i orders e) orders
unfolding cancel_each
cancel_each-CancelsList i [] e = record {
  same = record { books = refl; markets = refl; index = refl };
  marked = λ id h k. absurd k;
  kept = λ h k. k;
  new = [];
  log = sym (append-nil e.sequencer.log);
  events = refl;
}
cancel_each-CancelsList i ((order_id, hash) ∷ orders) e =
    let e₁ : Engine = record e {
      state = cancel_order e.state hash;
      sequencer = append i e.sequencer (order_cancelled order_id hash admin_force);
    } in
    let rest = cancel_each-CancelsList i orders e₁ in
    let cancelled = numbered i e.sequencer (order_cancelled order_id hash admin_force) in
    record {
      same = record {
        books = rest.same.books;
        markets = rest.same.markets;
        index = rest.same.index;
      };
      marked = λ id h k. elim k [
        | inl here ↦ rest.kept h (
            rw (ap (λ (z : OrderId × OrderHash). z.1) here)
              (is_cancelled-cancel_order e h h ∙ if_pos (bytes_eq h h) refl _ _))
        | inr later ↦ rest.marked id h later
      ];
      kept = λ h k. rest.kept h (ground (arith, is_cancelled-cancel_order e hash h));
      new = cancelled ∷ rest.new;
      log = rest.log ∙ log-append i e.sequencer cancelled.event rest.new;
      events = ap (λ (l : List Event). order_cancelled order_id hash admin_force ∷ l) rest.events;
    }

-- Cancelling all the orders of a known market answers with the number of the orders that the log has
-- accepted for it as open, and marks each of their hashes as cancelled. It appends to the log, for
-- these orders in their order, one event each: the cancel with the order's id and hash and the reason
-- AdminForce. It leaves every book, every market and the index as they were.
pub cancel_all_orders_lem :
    (i : Inputs) (e : Engine) (market_id : Str) (n : ℕ)
    → (cancel_all_orders i e market_id).0 ≡ ok n
    → (n ≡ length (open_orders market_id e.sequencer.log))
      × ((id : OrderId) (h : OrderHash)
          → Has (open_orders market_id e.sequencer.log) (id, h)
          → is_cancelled (cancel_all_orders i e market_id).1.state h ≡ true)
      × ((new : List SequencedEvent) × ((cancel_all_orders i e market_id).1.sequencer.log
            ≡ e.sequencer.log ++ new)
          × (map event_of new ≡ map forced (open_orders market_id e.sequencer.log)))
      × SameMarkets e (cancel_all_orders i e market_id).1
cancel_all_orders_lem i e market_id n = elim (Option-cases (find_market e.markets market_id)) [
  | inl missing ↦ unfold cancel_all_orders in rw (missing, cancel_all_orders) (λ h. cc)
  | inr (m, found) ↦
      unfold cancel_all_orders in
      rw (found, cancel_all_orders)
        (λ h.
          let c = cancel_each-CancelsList i (open_orders market_id e.sequencer.log) e in
          let same : length (open_orders market_id e.sequencer.log) ≡ n = cc h in
          (sym same, c.marked, (c.new, c.log, c.events), c.same))
]

-- Cancelling all the orders of a market keeps the engine valid, whatever the answer.
pub cancel_all_orders-IsValid :
    (i : Inputs) (e : Engine) (market_id : Str)
    → IsValid e
    → IsValid (cancel_all_orders i e market_id).1
cancel_all_orders-IsValid i e market_id v = elim (Option-cases (find_market e.markets market_id)) [
  | inl missing ↦ unfold cancel_all_orders in rw (missing, cancel_all_orders) v
  | inr (m, found) ↦
      unfold cancel_all_orders in
      rw (found, cancel_all_orders)
        (SameMarkets-IsValid e _
          (cancel_each-CancelsList i (open_orders market_id e.sequencer.log) e).same v)
]
