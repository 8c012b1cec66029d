-- ===== src/Engine/Residual.antt =====
-- What is left of an order rests on the book, and the book stays uncrossed (src/engine/mod.rs).
use rust_matching_engine.Prelude.{
  ℕ, ◌<◌, ◌≡◌, ◌≢◌, sym, ap, ◌∙◌, List, [], ◌∷◌, ◌++◌, none, some, arith, false, Has, inl, inr, ◌⊎◌,
  Bool-cases, if◌then◌else◌, ltb,
}
use mathlib.Core.Bool.{false≢true}
use rust_matching_engine.HashMap.{HashMap, bytes_key}
use rust_matching_engine.HashMap
use rust_matching_engine.Domain.Order.{
  Order, OrderId, Side, buy, sell, is_closed, remaining_size_lots,
}
use rust_matching_engine.Engine.Orderbook.{OrderBook, get, insert, orders_at_price}
use rust_matching_engine.Engine.Orderbook.Levels.{
  same_level, same_level-eq, orders_at_price-insert, orders-insert,
}
use rust_matching_engine.Engine.Orderbook.Invariant.{IsWf, insert-IsWf}
use rust_matching_engine.Engine.Matching.{MatchState, match_order}
use rust_matching_engine.Engine.Matching.Fills.{IsSound, Crosses, opposite, remaining-eq-sub}
use rust_matching_engine.Engine.Matching.Round.{Account, absent, present}
use rust_matching_engine.Engine.Matching.Walk.{Matched, prevented-closed, match_order-Matched}

-- Step 12 of `process_order`: what is left of an order that is not closed rests on the book.
unfoldable pub insert_residual : OrderBook → Order → OrderBook
insert_residual book order =
    if is_closed order
    then book
    else if ltb 0 (remaining_size_lots order)
    then insert book order
    else book

-- Every resting bid is below every resting ask.
pub record IsUncrossed (b : OrderBook) : Type 0 where
  pub below :
      (bid ask : ℕ) (i j : OrderId)
      → Has (orders_at_price b bid buy) i
      → Has (orders_at_price b ask sell) j
      → bid < ask

Has-append_one : (x k : OrderId) (q : List OrderId) → Has (q ++ x ∷ []) k → Has q k ⊎ (x ≡ k)
Has-append_one x k [] (inl e) = inr e
Has-append_one x k [] (inr m) = absurd m
Has-append_one x k (y ∷ q) (inl e) = inl (inl e)
Has-append_one x k (y ∷ q) (inr m) = elim (Has-append_one x k q m) [
  | inl old ↦ inl (inr old)
  | inr e ↦ inr e
]

-- What rests after an insert rested before, or is at the level of the new order.
rests_after :
    (b : OrderBook) (o : Order) (q : ℕ) (s : Side) (k : OrderId)
    → Has (orders_at_price (insert b o) q s) k
    → Has (orders_at_price b q s) k ⊎ ((o.side ≡ s) × (o.price_ticks ≡ q))
rests_after b o q s k h = elim (Bool-cases (same_level o.side o.price_ticks s q)) [
  | inl here ↦ inr (same_level-eq o.side s o.price_ticks q here)
  | inr other ↦ inl (rw (orders_at_price-insert b o q s, other) at h)
]

residual_cases :
    (P : OrderBook → Type 0) (b : OrderBook) (o : Order)
    → P b
    → (is_closed o ≡ false → remaining_size_lots o ≢ 0 → P (insert b o))
    → P (insert_residual b o)
residual_cases P b o stay rest = elim (Bool-cases (is_closed o)) [
  | inl c ↦ unfold insert_residual in rw (c, insert_residual) stay
  | inr c ↦ elim (Bool-cases (ltb 0 (remaining_size_lots o))) [
    | inl more ↦ unfold insert_residual in rw (c, more, insert_residual) (rest c (ground arith))
    | inr none_left ↦ unfold insert_residual in rw (c, none_left, insert_residual) stay
  ]
]

-- An uncrossed book stays so when an order is inserted that no resting order of the other side
-- could trade with.
insert-IsUncrossed :
    (b : OrderBook) (o : Order)
    → IsUncrossed b
    → ((q : ℕ) (id : OrderId)
        → Crosses o.side o.price_ticks q
        → ¬ Has (orders_at_price b q (opposite o.side)) id)
    → IsUncrossed (insert b o)
insert-IsUncrossed b o u bare = record {
  below = λ bid ask i j hi hj. elim (rests_after b o bid buy i hi) [
    | inl old_bid ↦ elim (rests_after b o ask sell j hj) [
      | inl old_ask ↦ u.below bid ask i j old_bid old_ask
      | inr new_ask ↦ above bid ask i new_ask.0 new_ask.1 old_bid
    ]
    | inr new_bid ↦ elim (rests_after b o ask sell j hj) [
      | inl old_ask ↦ under bid ask j new_bid.0 new_bid.1 old_ask
      | inr new_ask ↦ absurd (cc (new_bid.0, new_ask.0))
    ]
  ];
}
  where
    above :
        (bid ask : ℕ) (i : OrderId)
        → o.side ≡ sell
        → o.price_ticks ≡ ask
        → Has (orders_at_price b bid buy) i
        → bid < ask
    above bid ask i e p h = elim (Bool-cases (ltb bid ask)) [
      | inl lt ↦ ground arith
      | inr ge ↦ absurd ((rw e at bare) bid i (ground arith) h)
    ]

    under :
        (bid ask : ℕ) (j : OrderId)
        → o.side ≡ buy
        → o.price_ticks ≡ bid
        → Has (orders_at_price b ask sell) j
        → bid < ask
    under bid ask j e p h = elim (Bool-cases (ltb bid ask)) [
      | inl lt ↦ ground arith
      | inr ge ↦ absurd ((rw e at bare) ask j (ground arith) h)
    ]

module _ (b : OrderBook) (t : Order) (seq_id now_ms : ℕ) (wf : IsWf b) (sound : IsSound t) where
  abbrev ended : MatchState
  ended = match_order b t seq_id now_ms

  abbrev done : Matched b t seq_id now_ms ended
  done = match_order-Matched b t seq_id now_ms wf sound

  ended_fresh : get b t.order_id ≡ none → get ended.book ended.taker.order_id ≡ none
  ended_fresh fresh = rw done.progress.terms.order_id (missing (done.progress.accounts t.order_id))
    where
      missing : Account b ended.book ended.fills t.order_id → get ended.book t.order_id ≡ none
      missing (absent n n') = n'
      missing (present o o' a a' same g) = cc (a, fresh)

  -- Matching a new order against a well-formed book and resting what is left of it gives a
  -- well-formed book.
  pub residual-IsWf : get b t.order_id ≡ none → IsWf (insert_residual ended.book ended.taker)
  residual-IsWf fresh = residual_cases IsWf ended.book ended.taker done.progress.wf λ c more.
      let s = done.progress.sound in
      let e = remaining-eq-sub ended.taker s in
      insert-IsWf ended.book ended.taker done.progress.wf (ended_fresh fresh) c
        (let a = s.not_over in omega arith) s.in_range

  -- The book holds no order but those of before and the new one.
  pub residual-known :
      (id : OrderId) (k : Order)
      → get (insert_residual ended.book ended.taker) id ≡ some k
      → (id ≡ t.order_id) ⊎ ((o : Order) × (get b id ≡ some o))
  residual-known id k =
      residual_cases
        (λ c. get c id ≡ some k → (id ≡ t.order_id) ⊎ ((o : Order) × (get b id ≡ some o)))
        ended.book ended.taker (known id k)
        λ c more h.
          elim (HashMap.found_after ended.book.orders ended.taker.order_id id ended.taker k (
            ap (λ (m : HashMap OrderId Order). HashMap.get m id)
              (sym (orders-insert ended.book ended.taker))
            ∙ h)) [
              | inl (same, _) ↦ inl (same ∙ done.progress.terms.order_id)
              | inr (_, before) ↦ known id k before
            ]
    where
      from_account :
          (id : OrderId) (k : Order)
          → Account b ended.book ended.fills id
          → get ended.book id ≡ some k
          → (id ≡ t.order_id) ⊎ ((o : Order) × (get b id ≡ some o))
      from_account id k (absent n n') h = absurd (cc (n', h))
      from_account id k (present o o' a a' same g) h = inr (o, a)

      known :
          (id : OrderId) (k : Order)
          → get ended.book id ≡ some k
          → (id ≡ t.order_id) ⊎ ((o : Order) × (get b id ≡ some o))
      known id k = from_account id k (done.progress.accounts id)

  -- Matching an order against a well-formed and uncrossed book, and resting what is left of it,
  -- leaves the book uncrossed: every resting bid stays below every resting ask.
  pub residual-IsUncrossed : IsUncrossed b → IsUncrossed (insert_residual ended.book ended.taker)
  residual-IsUncrossed u = residual_cases IsUncrossed ended.book ended.taker still λ c more.
      insert-IsUncrossed ended.book ended.taker still (elim done.exhausted [
        | inl (inl e) ↦ absurd (more e)
        | inl (inr (inl x)) ↦ absurd (false≢true (sym c ∙ prevented-closed x))
        | inl (inr (inr (_, c'))) ↦ absurd (false≢true (sym c ∙ c'))
        | inr bare ↦ rw (done.progress.terms.side, done.progress.terms.price) bare
      ])
    where
      still : IsUncrossed ended.book
      still = record {
        below = λ bid ask i j hi hj.
            u.below bid ask i j (done.shrinks.at buy bid i hi) (done.shrinks.at sell ask j hj);
      }
