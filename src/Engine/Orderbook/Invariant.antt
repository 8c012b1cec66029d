-- ===== src/Engine/Orderbook/Invariant.antt =====
-- The well-formed books of src/engine/orderbook.rs: the price levels hold exactly the open orders.
use rust_matching_engine.Prelude.{
  ℕ, ◌<◌, ◌≡◌, ◌≢◌, refl, sym, ◌∙◌, ap, [], ◌++◌, ◌∷◌, none, some, All, All-map, All-append, Has,
  Has-append_left, Has-append_right, Distinct, true, false, u64_mod, inl, inr, if◌then◌else◌,
  Bool-cases,
}
use mathlib.Core.Bool.{false≢true}
use rust_matching_engine.HashMap.{HashMap, bytes_eq, bytes_key}
use rust_matching_engine.HashMap
use rust_matching_engine.BTreeMap
use rust_matching_engine.BTreeMap.{BTreeMap, IsSorted}
use rust_matching_engine.Domain.Order.{Order, OrderId, Side, buy, sell, is_closed}
use rust_matching_engine.Engine.Orderbook.Queue
use rust_matching_engine.Engine.Orderbook.Levels.{
  same_level, same_level_refl, same_level-eq, orders_at_price-set_order, orders_at_price-remove,
  orders_at_price-insert, orders-remove, orders-insert, HasTidyLevels, remove-HasTidyLevels,
  insert-HasTidyLevels,
}
use rust_matching_engine.Engine.Orderbook.{
  orders_at_price, OrderBook, new, levels, get, set_order, remove_from_queue, retain_ne, insert,
}

-- The id is of an open order of this side and price, with a quantity left.
pub record Rests (orders : HashMap OrderId Order) (side : Side) (price : ℕ) (id : OrderId)
    : Type 0 where
  pub order : Order
  pub found : HashMap.get orders id ≡ some order
  pub same_id : order.order_id ≡ id
  pub same_side : order.side ≡ side
  pub same_price : order.price_ticks ≡ price
  pub is_open : is_closed order ≡ false
  pub has_rest : order.filled_size_lots < order.orig_size_lots
  pub in_range : order.orig_size_lots < u64_mod

-- The levels hold the open orders, each at its side and price and once, and no queue is empty.
pub record IsWf (b : OrderBook) : Type 0 where
  pub listed : (s : Side) (p : ℕ) → All (Rests b.orders s p) (orders_at_price b p s)
  pub distinct : (s : Side) (p : ℕ) → Distinct (orders_at_price b p s)
  pub complete :
      (id : OrderId) (o : Order)
      → get b id ≡ some o
      → is_closed o ≡ false
      → Has (orders_at_price b o.price_ticks o.side) id
  pub tidy : HasTidyLevels b

pub nothing_at : (s : Side) (p : ℕ) → orders_at_price new p s ≡ []
unfolding orders_at_price new levels BTreeMap.get
nothing_at buy p = refl
nothing_at sell p = refl

-- An empty book is well formed.
pub new-IsWf : IsWf new
new-IsWf = record {
  listed = λ s p. rw (nothing_at s p) tt;
  distinct = λ s p. rw (nothing_at s p) tt;
  complete = λ id o e c. unfold new HashMap.get in cc;
  tidy = (
    unfold new BTreeMap.get in record { sorted = tt; nonempty = λ p e. cc },
    unfold new BTreeMap.get in record { sorted = tt; nonempty = λ p e. cc },
  );
}

-- A write to one order leaves what rests under other ids.
Rests-set_ne :
    (orders : HashMap OrderId Order) (id j : OrderId) (o : Order) (s : Side) (p : ℕ)
    → j ≢ id
    → Rests orders s p j
    → Rests (HashMap.insert orders id o) s p j
Rests-set_ne orders id j o s p ne r = record {
  order = r.order;
  found = HashMap.get-insert_ne orders id j o (λ e. ne (sym e)) ∙ r.found;
  same_id = r.same_id;
  same_side = r.same_side;
  same_price = r.same_price;
  is_open = r.is_open;
  has_rest = r.has_rest;
  in_range = r.in_range;
}

-- An id rests only at the level of its order.
Rests-level :
    (orders : HashMap OrderId Order) (id j : OrderId) (o : Order) (s : Side) (p : ℕ)
    → HashMap.get orders id ≡ some o
    → id ≡ j
    → Rests orders s p j
    → (o.side ≡ s) × (o.price_ticks ≡ p)
Rests-level orders id j o s p found e r =
    let same : r.order ≡ o = cc (r.found, found, e) in
    (
      ap (λ (x : Order). x.side) (sym same) ∙ r.same_side,
      ap (λ (x : Order). x.price_ticks) (sym same) ∙ r.same_price,
    )

-- A write that keeps an order open, at its side and price.
module _ (b : OrderBook) (id : OrderId) (o o' : Order) (wf : IsWf b) (found : get b id ≡ some o)
    (same_side : o'.side ≡ o.side) (same_price : o'.price_ticks ≡ o.price_ticks) where
  Rests-set :
      o'.order_id ≡ id
      → is_closed o' ≡ false
      → o'.filled_size_lots < o'.orig_size_lots
      → o'.orig_size_lots < u64_mod
      → (s : Side) (p : ℕ) (j : OrderId) → Rests b.orders s p j
      → Rests (HashMap.insert b.orders id o') s p j
  Rests-set i c l r s p j h = elim (bytes_eq j id) [
    | yes e ↦
        let at : (o.side ≡ s) × (o.price_ticks ≡ p) =
          Rests-level b.orders id j o s p found (sym e) h in
        record {
          order = o';
          found = rw e (HashMap.get-insert_self b.orders id o');
          same_id = i ∙ sym e;
          same_side = same_side ∙ at.0;
          same_price = same_price ∙ at.1;
          is_open = c;
          has_rest = l;
          in_range = r;
        }
    | no ne ↦ Rests-set_ne b.orders id j o' s p ne h
  ]

  pub set_open-IsWf :
      o'.order_id ≡ id
      → is_closed o ≡ false
      → is_closed o' ≡ false
      → o'.filled_size_lots < o'.orig_size_lots
      → o'.orig_size_lots < u64_mod
      → IsWf (set_order b id o')
  set_open-IsWf i c c' l r = record {
    listed = λ s p.
        rw (orders_at_price-set_order b id o' p s)
          (All-map (Rests-set i c' l r s p) (orders_at_price b p s) (wf.listed s p));
    distinct = λ s p. rw (orders_at_price-set_order b id o' p s) (wf.distinct s p);
    complete = λ j k e open_k. elim (HashMap.found_after b.orders id j o' k e) [
      | inl (same, new_) ↦
          rw
            (
              new_,
              same,
              orders_at_price-set_order b id o' o'.price_ticks o'.side,
              same_side,
              same_price,
            )
            (wf.complete id o found c)
      | inr (_, before) ↦
          rw (orders_at_price-set_order b id o' k.price_ticks k.side)
            (wf.complete j k before open_k)
    ];
    tidy = wf.tidy;
  }

  -- A write that closes the order, and the removal from its queue, drop the id everywhere.
  pub orders_at_price-close :
      (s : Side) (p : ℕ)
      → orders_at_price (remove_from_queue (set_order b id o') id) p s
        ≡ retain_ne id (orders_at_price b p s)
  orders_at_price-close s p =
      orders_at_price-remove (set_order b id o') id o' p s (HashMap.get-insert_self b.orders id o')
      ∙ elim (Bool-cases (same_level o'.side o'.price_ticks s p)) [
        | inl here ↦ rw (here, orders_at_price-set_order b id o' p s)
        | inr other ↦
            rw (other, orders_at_price-set_order b id o' p s)
              (sym (
                Queue.retain_ne_absent id (orders_at_price b p s)
                  (All-map (absent other) (orders_at_price b p s) (wf.listed s p))))
      ]
    where
      absent :
          same_level o'.side o'.price_ticks s p ≡ false
          → (j : OrderId) → Rests b.orders s p j
          → id ≢ j
      absent other j h e =
          let at : (o.side ≡ s) × (o.price_ticks ≡ p) = Rests-level b.orders id j o s p found e h in
          let same : same_level o'.side o'.price_ticks s p ≡ true =
            rw (same_side ∙ at.0, same_price ∙ at.1) (same_level_refl s p) in
          false≢true (sym other ∙ same)

  pub close-IsWf : is_closed o' ≡ true → IsWf (remove_from_queue (set_order b id o') id)
  close-IsWf c = record {
    listed = λ s p.
        rw (orders_at_price-close s p, orders-remove (set_order b id o') id)
          (All-map
            (λ j (h : (j ≢ id) × Rests b.orders s p j). Rests-set_ne b.orders id j o' s p h.0 h.1) _
            (Queue.All-retain_ne _ id (orders_at_price b p s) (wf.listed s p)));
    distinct = λ s p.
        rw (orders_at_price-close s p)
          (Queue.Distinct-retain_ne id (orders_at_price b p s) (wf.distinct s p));
    complete = λ j k e open_k.
        let e' : HashMap.get (HashMap.insert b.orders id o') j ≡ some k =
          ap (λ (m : HashMap OrderId Order). HashMap.get m j)
            (sym (orders-remove (set_order b id o') id))
          ∙ e in
        elim (HashMap.found_after b.orders id j o' k e') [
          | inl (_, new_) ↦ absurd (false≢true (sym open_k ∙ ap is_closed new_ ∙ c))
          | inr (ne, before) ↦
              rw (orders_at_price-close k.side k.price_ticks)
                (Queue.Has-retain_ne id j _ (wf.complete j k before open_k) ne)
        ];
    tidy = remove-HasTidyLevels (set_order b id o') id wf.tidy;
  }

-- Inserting an open order of a `u64` size with something left to fill, under an id that the book does
-- not have, keeps a well-formed book well formed.
pub insert-IsWf :
    (b : OrderBook) (o : Order)
    → IsWf b
    → get b o.order_id ≡ none
    → is_closed o ≡ false
    → o.filled_size_lots < o.orig_size_lots
    → o.orig_size_lots < u64_mod
    → IsWf (insert b o)
insert-IsWf b o wf fresh c l r = record {
  listed = λ s p. rw orders_at_price-insert (
      rw orders-insert (elim (Bool-cases (same_level o.side o.price_ticks s p)) [
        | inl here ↦
            rw here (All-append _ (orders_at_price b p s) _ (old s p) (new_rests s p here, tt))
        | inr other ↦ rw other (old s p)
      ]));
  distinct = λ s p.
      rw orders_at_price-insert (elim (Bool-cases (same_level o.side o.price_ticks s p)) [
        | inl here ↦ rw here (
            Queue.Distinct-append_one o.order_id _ (wf.distinct s p)
              (All-map (not_new s p) _ (wf.listed s p)))
        | inr other ↦ rw other (wf.distinct s p)
      ]);
  complete = λ j k e open_k.
      rw orders_at_price-insert
        (elim (HashMap.found_after b.orders o.order_id j o k
          (ap (λ (m : HashMap OrderId Order). HashMap.get m j) (sym (orders-insert b o)) ∙ e)) [
            | inl (same, new_) ↦
                rw (new_, same, same_level_refl o.side o.price_ticks)
                  (Has-append_right o.order_id (orders_at_price b o.price_ticks o.side) _
                    (inl refl))
            | inr (_, before) ↦ grow j k (wf.complete j k before open_k)
          ]);
  tidy = insert-HasTidyLevels b o wf.tidy;
}
  where
    grow :
        (j : OrderId) (k : Order)
        → Has (orders_at_price b k.price_ticks k.side) j
        → Has
            (if same_level o.side o.price_ticks k.side k.price_ticks
              then orders_at_price b k.price_ticks k.side ++ o.order_id ∷ []
              else orders_at_price b k.price_ticks k.side)
            j
    grow j k h = elim (Bool-cases (same_level o.side o.price_ticks k.side k.price_ticks)) [
      | inl here ↦ rw here (Has-append_left j _ _ h)
      | inr other ↦ rw other h
    ]

    not_new : (s : Side) (p : ℕ) (j : OrderId) → Rests b.orders s p j → j ≢ o.order_id
    not_new s p j h e = cc (h.found, fresh, e)

    old :
        (s : Side) (p : ℕ)
        → All (Rests (HashMap.insert b.orders o.order_id o) s p) (orders_at_price b p s)
    old s p =
        All-map (λ j h. Rests-set_ne b.orders o.order_id j o s p (not_new s p j h) h)
          (orders_at_price b p s) (wf.listed s p)

    new_rests :
        (s : Side) (p : ℕ)
        → same_level o.side o.price_ticks s p ≡ true
        → Rests (HashMap.insert b.orders o.order_id o) s p o.order_id
    new_rests s p here = record {
      order = o;
      found = HashMap.get-insert_self b.orders o.order_id o;
      same_id = refl;
      same_side = (same_level-eq o.side s o.price_ticks p here).0;
      same_price = (same_level-eq o.side s o.price_ticks p here).1;
      is_open = c;
      has_rest = l;
      in_range = r;
    }
