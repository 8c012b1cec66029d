-- ===== src/Engine/Cancel.antt =====
-- Cancelling an order through the engine (src/engine/mod.rs).
use rust_matching_engine.Prelude.{
  ◌≡◌, ◌≢◌, refl, sym, ap, ◌∙◌, List, none, some, true, false, inl, inr, Bool-cases, Option-cases,
  Has, if_pos, if_neg, ok, err, subst,
}
use mathlib.Core.Bool.{false≢true}
use rust_matching_engine.HashMap.{HashMap, bytes_eq, bytes_key}
use rust_matching_engine.HashMap
use rust_matching_engine.Domain.Market.{Str}
use rust_matching_engine.Domain.Order.{
  Order, OrderId, buy, sell, cancelled, is_closed, closed_status,
}
use rust_matching_engine.Events.{order_cancelled, trader_request}
use rust_matching_engine.Sequencer.{peek_next_seq_id}
use rust_matching_engine.StateStore.{cancel_order}
use rust_matching_engine.Engine.Orderbook.{OrderBook, orders_at_price, retain_ne}
use rust_matching_engine.Engine.Orderbook
use rust_matching_engine.Engine.Orderbook.Queue
use rust_matching_engine.Engine.Orderbook.Cancel.{Cancels, cancel_with_status_lem}
use rust_matching_engine.Engine.{
  Engine, Inputs, unauthorized, cancel_in_book, process_cancel, append,
}
use rust_matching_engine.Engine.Validity.{
  IsValid, IsGoodBook, SameMarkets-IsValid, set_book-IsValid,
}
use rust_matching_engine.Engine.Submit.{Keeps}

-- The book after the cancel of an open order.
cancel-Cancels :
    (b : OrderBook) (id : OrderId) (o : Order)
    → IsGoodBook b
    → Orderbook.get b id ≡ some o
    → is_closed o ≡ false
    → Cancels b id o cancelled (Orderbook.cancel b id).0
cancel-Cancels b id o good found live =
    elim (cancel_with_status_lem b id cancelled good.wf (unfold closed_status in refl)) [
      | inl (k, there, _, _, c) ↦
          let same : k ≡ o = cc (found, there) in
          unfold Orderbook.cancel in
          subst
            (λ (z : Order).
              Cancels b id z cancelled (Orderbook.cancel_with_status b id cancelled).0)
            same c
      | inr (inl missing, _) ↦ cc (found, missing)
      | inr (inr (k, there, closed), _) ↦
          let same : k ≡ o = cc (found, there) in
          absurd (false≢true (sym live ∙ ap is_closed (sym same) ∙ closed))
    ]

Cancels-IsGoodBook :
    (b b' : OrderBook) (id : OrderId) (o : Order)
    → IsGoodBook b
    → Cancels b id o cancelled b'
    → IsGoodBook b'
Cancels-IsGoodBook b b' id o good c = record {
  wf = c.wf;
  uncrossed = record {
    below = λ bid ask i j h k.
        good.uncrossed.below bid ask i j
          (Queue.Has-of_retain_ne id i _
            (subst (λ (q : List OrderId). Has q i) (c.queues buy bid) h))
          (Queue.Has-of_retain_ne id j _
            (subst (λ (q : List OrderId). Has q j) (c.queues sell ask) k));
  };
}

module _ (i : Inputs) (order_id : OrderId) (trader_id market_id : Str) (e : Engine) (b : OrderBook)
    (o : Order) where
  pub refused_reply :
      o.trader_id ≢ trader_id
      → cancel_in_book i market_id b o order_id trader_id e ≡ (err (unauthorized trader_id), e)
  refused_reply other = unfold cancel_in_book in if_neg (bytes_eq o.trader_id trader_id) other _ _

  pub closed_reply :
      o.trader_id ≡ trader_id
      → is_closed o ≡ true
      → cancel_in_book i market_id b o order_id trader_id e
        ≡ (ok (record { order_id = order_id; seq_id = none; was_already_closed = true }), e)
  closed_reply own closed =
      unfold cancel_in_book in rw closed (if_pos (bytes_eq o.trader_id trader_id) own _ _)

  pub live_reply :
      o.trader_id ≡ trader_id
      → is_closed o ≡ false
      → cancel_in_book i market_id b o order_id trader_id e ≡ (
        ok (record {
          order_id = order_id;
          seq_id = some (peek_next_seq_id e.sequencer);
          was_already_closed = false;
        }),
        record e {
          sequencer = append i e.sequencer (order_cancelled order_id o.order_hash trader_request);
          state = cancel_order e.state o.order_hash;
          books = HashMap.insert e.books market_id (Orderbook.cancel b order_id).0;
        },
      )
  live_reply own live =
      unfold cancel_in_book in rw live (if_pos (bytes_eq o.trader_id trader_id) own _ _)

module _ (i : Inputs) (order_id : OrderId) (trader_id market_id : Str) (e : Engine) (b : OrderBook)
    (o : Order) (v : IsValid e) (h : HashMap.get e.books market_id ≡ some b)
    (found : Orderbook.get b order_id ≡ some o) where
  cancelled_known :
      (b' : OrderBook)
      → Cancels b order_id o cancelled b'
      → (id : OrderId) (k : Order) → Orderbook.get b' id ≡ some k
      → HashMap.get e.order_market_index id ≡ some market_id
  cancelled_known b' c id k g =
      elim (HashMap.found_after b.orders order_id id (record o { status = cancelled }) k
        (ap (λ (m : HashMap OrderId Order). HashMap.get m id) (sym c.orders) ∙ g)) [
          | inl (same, _) ↦
              ap (HashMap.get e.order_market_index) same ∙ v.indexed market_id b order_id o h found
          | inr (_, before) ↦ v.indexed market_id b id k h before
        ]

  cancel_in_book-IsValid : IsValid (cancel_in_book i market_id b o order_id trader_id e).1
  cancel_in_book-IsValid = elim (bytes_eq o.trader_id trader_id) [
    | no other ↦ rw (refused_reply i order_id trader_id market_id e b o other) v
    | yes own ↦ elim (Bool-cases (is_closed o)) [
      | inl closed ↦ rw (closed_reply i order_id trader_id market_id e b o own closed) v
      | inr live ↦
          let good = v.books_good market_id b h in
          let c = cancel-Cancels b order_id o good found live in
          rw (live_reply i order_id trader_id market_id e b o own live) (
            set_book-IsValid _ market_id (Orderbook.cancel b order_id).0
              (SameMarkets-IsValid e _ (record { books = refl; markets = refl; index = refl }) v)
              (Cancels-IsGoodBook b (Orderbook.cancel b order_id).0 order_id o good c)
              (cancelled_known (Orderbook.cancel b order_id).0 c))
    ]
  ]

-- In a valid engine a cancel never panics, whatever id and trader it names, and leaves a valid
-- engine.
pub process_cancel-Keeps :
    (i : Inputs) (order_id : OrderId) (trader_id : Str) (e : Engine)
    → IsValid e
    → Keeps (process_cancel i order_id trader_id e)
process_cancel-Keeps i order_id trader_id e v =
    elim (Option-cases (HashMap.get e.order_market_index order_id)) [
      | inl missing ↦ unfold process_cancel in rw (missing, process_cancel) v
      | inr (m, known) ↦ elim (Option-cases (HashMap.get e.books m)) [
        | inl no_book ↦ absurd (v.index_book order_id m known no_book)
        | inr (b, h) ↦ elim (Option-cases (Orderbook.get b order_id)) [
          | inl missing ↦ unfold process_cancel in rw (known, h, missing, process_cancel) v
          | inr (o, found) ↦
              unfold process_cancel in
              rw (known, h, found, process_cancel)
                (cancel_in_book-IsValid i order_id trader_id m e b o v h found)
        ]
      ]
    ]
