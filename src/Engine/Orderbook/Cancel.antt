-- ===== src/Engine/Orderbook/Cancel.antt =====
-- Cancelling an order of the book (src/engine/orderbook.rs).
use rust_matching_engine.Prelude.{
  ℕ, ◌≡◌, refl, none, some, true, false, inl, inr, ◌⊎◌, Bool-cases, Option-cases,
}
use rust_matching_engine.HashMap.{HashMap, bytes_key}
use rust_matching_engine.HashMap
use rust_matching_engine.Domain.Order.{Order, OrderId, OrderStatus, Side, is_closed, closed_status}
use rust_matching_engine.Engine.Orderbook.{
  OrderBook, get, set_order, remove_from_queue, retain_ne, orders_at_price, cancel_with_status,
}
use rust_matching_engine.Engine.Orderbook.Levels.{orders-remove}
use rust_matching_engine.Engine.Orderbook.Invariant.{IsWf, close-IsWf, orders_at_price-close}

-- The book of a cancel that succeeds.
pub record Cancels (b : OrderBook) (id : OrderId) (o : Order) (status : OrderStatus)
    (b' : OrderBook) : Type 0 where
  pub wf : IsWf b'
  pub orders : b'.orders ≡ HashMap.insert b.orders id (record o { status = status })
  pub queues : (s : Side) (p : ℕ) → orders_at_price b' p s ≡ retain_ne id (orders_at_price b p s)

module _ (b : OrderBook) (id : OrderId) (status : OrderStatus) (wf : IsWf b)
    (closing : closed_status status ≡ true) where
  closed_by :
      (o : Order)
      → get b id ≡ some o
      → Cancels b id o status (remove_from_queue (set_order b id (record o { status = status })) id)
  closed_by o found =
      let o' = record o { status = status } in
      record {
        wf = close-IsWf b id o o' wf found refl refl (unfold is_closed in closing);
        orders = orders-remove (set_order b id o') id;
        queues = orders_at_price-close b id o o' wf found refl refl;
      }

  -- In a well-formed book a cancel with a closing status answers true exactly for an id of an open
  -- order: that order gets the status and leaves its queue, and the book stays well formed. For an
  -- unknown id and for a closed order it answers false and the book stays as it is.
  pub cancel_with_status_lem :
      ((o : Order) × (get b id ≡ some o)
        × (is_closed o ≡ false)
        × ((cancel_with_status b id status).1 ≡ true)
        × Cancels b id o status (cancel_with_status b id status).0)
      ⊎ (((get b id ≡ none) ⊎ ((o : Order) × (get b id ≡ some o) × (is_closed o ≡ true)))
          × (cancel_with_status b id status ≡ (b, false)))
  cancel_with_status_lem = elim (Option-cases (get b id)) [
    | inl missing ↦ inr (inl missing, unfold cancel_with_status in rw (missing, cancel_with_status))
    | inr (o, found) ↦ elim (Bool-cases (is_closed o)) [
      | inl c ↦
          inr (inr (o, found, c), unfold cancel_with_status in rw (found, c, cancel_with_status))
      | inr c ↦ inl (
        o,
        found,
        c,
        unfold cancel_with_status in rw (found, c, cancel_with_status),
        unfold cancel_with_status in rw (found, c, cancel_with_status) (closed_by o found),
      )
    ]
  ]
